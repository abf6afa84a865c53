-- ===== src/Teardown/Freed.antt =====
-- psmoveinput.cpp: the destructor frees what there is.
use psmoveinput.Prelude.{Bool, some, ◌≡◌, arith}
use psmoveinput.Teardown.Objects.{
  Parts, made, does, destroy_instance, nothing_left, is_there, without, delete_object, destroy_log,
  destroy_slot, destroy_listener,
}

frees_parts :
    (log device handler listener t u : Bool)
    → let p : Parts = record {
      log = log;
      device = device;
      handler = handler;
      listener = listener;
      threads = record { fst = t; snd = u };
    } in
      does (destroy_instance p) (made p) ≡ some nothing_left
unfolding made does destroy_instance is_there without delete_object destroy_log destroy_slot
    destroy_listener
frees_parts log device handler listener t u = ground arith

-- Whichever parts a run has made, the destructor of the instance uses and frees no object that is not
-- there any more, and leaves none: the log, which goes first, is not used by those that follow.
pub destroy_frees_all : (p : Parts) → does (destroy_instance p) (made p) ≡ some nothing_left
destroy_frees_all p = frees_parts p.log p.device p.handler p.listener p.threads.fst p.threads.snd
