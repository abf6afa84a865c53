-- ===== src/Program/Shutdown.antt =====
-- psmove_listener.cpp: after a request to stop the threads, the program comes to an end of its joins.

use mathlib.Core.Path.{subst}
use psmoveinput.Prelude.{ℕ, ◌+◌, ◌≤◌, suc, true, false, List, [], ◌++◌, ◌≡◌, ℤ, refl, arith}
use psmoveinput.Listener.{needs_to_stop}
use psmoveinput.Program.State.{
  Program, Output, Move, main_loop, worker, release, notify, release_awaited, notify_awaited,
  interrupt,
}
use psmoveinput.Program.Step.{step, went}
use psmoveinput.Program.Outputs.{has_reset, has_reset_append}
use psmoveinput.Program.Reach.{Reach, here, later, Leads, if_alive-Leads}
use psmoveinput.Program.Cooling.{step-Cools}
use psmoveinput.Program.Rank.{rank, steps_left, Cools, IsOwn}

module _ {D : Type 0} (scale : ℤ → D → ℤ) (key_max : ℕ) where
  -- The steps of the program itself on a way from a state to another.
  unfoldable pub own_steps : {p q : Program D} {xs : List Output} → Reach scale key_max p q xs → ℕ
  own_steps here = 0
  own_steps (later r interrupt fits e) = own_steps r
  own_steps (later r (main_loop a) fits e) = suc (own_steps r)
  own_steps (later r (worker c a) fits e) = suc (own_steps r)
  own_steps (later r (release c) fits e) = suc (own_steps r)
  own_steps (later r (notify c) fits e) = suc (own_steps r)
  own_steps (later r release_awaited fits e) = suc (own_steps r)
  own_steps (later r notify_awaited fits e) = suc (own_steps r)

  -- Without a reset, the steps made and those left are no more than those there were.
  Within : Program D → Program D → ℕ → List Output → Type 0
  Within p q n xs =
      (p.listener.stop ≡ true → (q.listener.stop ≡ true) × (has_reset xs ≡ false))
      × (has_reset xs ≡ false → (needs_to_stop q.listener ≡ true) × (n + rank q ≤ rank p))

  later-Within :
      (p q r : Program D) (n : ℕ) (xs ys : List Output)
      → Within p q n xs
      → (needs_to_stop q.listener ≡ true → Cools q r ys)
      → Within p r (suc n) (xs ++ ys)
  unfolding Within
  later-Within p q r n xs ys w c = ground (arith, has_reset_append xs ys)

  -- A request from outside.
  abbrev Requested : Program D → Program D → List Output → Type 0
  Requested q r ys = (r.listener.stop ≡ true) × (ys ≡ []) × (rank r ≡ rank q)

  interrupted : (q : Program D) → Leads (Requested q) (step scale key_max interrupt q)
  unfolding step
  interrupted q = if_alive-Leads _ q.main _ (refl, refl, refl)

  Requested-Within :
      (p q r : Program D) (n : ℕ) (xs ys : List Output)
      → Within p q n xs
      → Requested q r ys
      → Within p r n (xs ++ ys)
  unfolding Within
  Requested-Within p q r n xs ys w c = ground (arith, has_reset_append xs ys)

  interrupt-Within :
      {p q r : Program D} {xs ys : List Output} (k : Reach scale key_max p q xs) (n : ℕ)
      → step scale key_max interrupt q ≡ went r ys
      → Within p q n xs
      → Within p r n (xs ++ ys)
  interrupt-Within {p = p} {q = q} {r = r} {xs = xs} {ys = ys} k n e w =
      Requested-Within p q r n xs ys w (subst (Leads (Requested q)) e (interrupted q))

  own-Within :
      {p q r : Program D} {xs ys : List Output} (k : Reach scale key_max p q xs) (n : ℕ) (m : Move)
      → IsOwn m
      → step scale key_max m q ≡ went r ys
      → Within p q n xs
      → Within p r (suc n) (xs ++ ys)
  own-Within {p = p} {q = q} {r = r} {xs = xs} {ys = ys} k n m own e w =
      later-Within p q r n xs ys w
        (λ s. subst (Leads (Cools q)) e (step-Cools scale key_max m q own s))

  reach-Within :
      {p q : Program D} {xs : List Output}
      → needs_to_stop p.listener ≡ true
      → (r : Reach scale key_max p q xs) → Within p q (own_steps r) xs
  unfolding Within own_steps
  reach-Within n here = ground arith
  reach-Within n (later r interrupt fits e) = interrupt-Within r _ e (reach-Within n r)
  reach-Within n (later r (main_loop a) fits e) =
      own-Within r _ (main_loop a) tt e (reach-Within n r)
  reach-Within n (later r (worker c a) fits e) = own-Within r _ (worker c a) tt e (reach-Within n r)
  reach-Within n (later r (release c) fits e) = own-Within r _ (release c) tt e (reach-Within n r)
  reach-Within n (later r (notify c) fits e) = own-Within r _ (notify c) tt e (reach-Within n r)
  reach-Within n (later r release_awaited fits e) =
      own-Within r _ release_awaited tt e (reach-Within n r)
  reach-Within n (later r notify_awaited fits e) =
      own-Within r _ notify_awaited tt e (reach-Within n r)

  rank-le : (p : Program D) → rank p ≤ steps_left p
  rank-le p = ground arith

  -- As long as a request to stop the threads stands and the handler has not been reset, the program
  -- has made at most 25 steps since, one more for each report that its threads still had to make, and
  -- one or two more for each thread that had left its loop and is not waited for, whatever the order
  -- of the steps; and the request still stands.
  pub request_bounds_steps :
      {p q : Program D} {xs : List Output}
      → needs_to_stop p.listener ≡ true
      → (r : Reach scale key_max p q xs) → has_reset xs ≡ false
      → (needs_to_stop q.listener ≡ true) × (own_steps r ≤ steps_left p)
  unfolding Within
  request_bounds_steps {p = p} n r e =
      let (still, le) = (reach-Within n r).1 e in (still, omega (arith, le, rank-le p))

  -- After `stop` the handler is not reset any more, the request stands, and the program makes at
  -- most 25 steps, one more for each report that its threads still had to make, and one or two more
  -- for each thread that had left its loop and is not waited for.
  pub stop_bounds_steps :
      {p q : Program D} {xs : List Output}
      → p.listener.stop ≡ true
      → (r : Reach scale key_max p q xs)
      → (has_reset xs ≡ false) × (q.listener.stop ≡ true) × (own_steps r ≤ steps_left p)
  unfolding Within
  stop_bounds_steps {p = p} n r =
      let w = reach-Within (ground arith) r in
      let (stop, no_reset) = w.0 n in (no_reset, stop, omega (arith, (w.1 no_reset).1, rank-le p))
