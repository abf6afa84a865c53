-- ===== src/InputDevice.antt =====
-- input_device.cpp and input_device.hpp: the uinput device. System calls are written down as
-- values, in the order in which they are made.

pub mod Frames
use psmoveinput.Prelude.{
  ℕ, ◌-◌, ◌%◌, ◌^◌, Bool, List, [], ◌∷◌, ◌++◌, map, ℤ, pos, if◌then◌else◌, ltb_ℤ, ◌==ℤ◌, not, take,
}

-- The macros of <linux/input.h> and <linux/uinput.h> that the device uses.
pub record InputCodes : Type 0 where
  pub ev_syn : ℕ
  pub ev_key : ℕ
  pub ev_rel : ℕ
  pub rel_x : ℕ
  pub rel_y : ℕ
  pub rel_wheel : ℕ
  pub syn_report : ℕ
  pub bus_bluetooth : ℕ
  pub uinput_max_name_size : ℕ

-- `struct input_event`, without its time stamp. `type` and `code` are 16 bits wide.
pub record InputEvent : Type 0 where
  pub etype : ℕ
  pub code : ℕ
  pub value : ℤ

-- The fields of `uinput_user_dev` that the constructor sets.
pub record UserDev : Type 0 where
  pub name : List ℕ
  pub bustype : ℕ
  pub vendor : ℕ
  pub product : ℕ
  pub version : ℕ

pub data SystemCall : Type 0 where
  set_evbit set_relbit set_keybit : ℕ → SystemCall
  write_dev : UserDev → SystemCall
  dev_create dev_destroy close : SystemCall

-- `class InputDevice`: the descriptor and the name.
pub record InputDevice : Type 0 where
  pub fd : ℤ
  pub devname : List ℕ

pub data Created : Type 0 where
  created : InputDevice → List SystemCall → Created
  -- `std::runtime_error`: uinput could not be opened.
  open_failed : Created

abbrev pub psmove_vendor_id : ℕ
psmove_vendor_id = 0x054C

abbrev pub psmove_product_id : ℕ
psmove_product_id = 0x03D5

-- The destructor.
unfoldable pub destroy : List SystemCall
destroy = dev_destroy ∷ close ∷ []

module _ (codes : InputCodes) where
  open codes use {
    ev_syn, ev_key, ev_rel, rel_x, rel_y, rel_wheel, syn_report, bus_bluetooth,
    uinput_max_name_size,
  }

  -- The constructor; `fd` is what `open` returns. `snprintf` keeps room for the final 0.
  unfoldable pub create : ℤ → List ℕ → List ℕ → Created
  create fd devname keys =
      if ltb_ℤ fd (pos 0)
      then open_failed
      else created (record { fd = fd; devname = devname })
          (set_evbit ev_rel
              ∷ set_relbit rel_x
              ∷ set_relbit rel_y
              ∷ set_relbit rel_wheel
              ∷ set_evbit ev_key
              ∷ map set_keybit keys
            ++ write_dev (record {
              name = take (uinput_max_name_size - 1) devname;
              bustype = bus_bluetooth;
              vendor = psmove_vendor_id;
              product = psmove_product_id;
              version = 1;
            })
              ∷ dev_create
              ∷ [])

  unfoldable pub report_syn : List InputEvent
  report_syn = record { etype = ev_syn; code = syn_report; value = pos 0 } ∷ []

  unfoldable pub report_move : ℤ → ℤ → List InputEvent
  report_move dx dy =
      (if not (dx ==ℤ pos 0) then record { etype = ev_rel; code = rel_x; value = dx } ∷ [] else [])
      ++ (if not (dy ==ℤ pos 0)
          then record { etype = ev_rel; code = rel_y; value = dy } ∷ []
          else [])
      ++ report_syn

  unfoldable pub report_key : ℕ → Bool → List InputEvent
  report_key key pressed =
      record { etype = ev_key; code = key % 2 ^ 16; value = if pressed then pos 1 else pos 0 }
      ∷ report_syn

  unfoldable pub report_mwheel : ℤ → List InputEvent
  report_mwheel value = record { etype = ev_rel; code = rel_wheel; value = value } ∷ report_syn
