-- ===== src/Program/Reach.antt =====
-- psmove_listener.cpp: the states that the program reaches, whoever makes the next step.
use psmoveinput.Prelude.{ℕ, ◌^◌, ◌<◌, List, [], ◌++◌, ℤ, All, All-append, ◌≡◌}
use mathlib.Core.Path.{subst}
use psmoveinput.Listener.{Sample}
use psmoveinput.Program.State.{
  Program, Output, Move, worker, MainLoop, top, joining, waiting, connecting, starting, finished,
  crashed,
}
use psmoveinput.Program.Step.{Outcome, blocked, went, step, if_alive}

-- A pattern of 32 bits, as psmoveapi reports the buttons.
abbrev pub IsPattern : ℕ → Type 0
IsPattern n = n < 2 ^ 32

abbrev pub Fits : Move → Type 0
Fits (worker c a) = All (λ (s : Sample). IsPattern s.buttons) a.samples
Fits _ = Unit {0}

-- Where a step is possible, its next state and its outputs have Q.
abbrev pub Leads : {D : Type 0} → (Program D → List Output → Type 0) → Outcome D → Type 0
Leads Q blocked = Unit {0}
Leads Q (went q ys) = Q q ys

pub if_alive-Leads :
    {D : Type 0} (Q : Program D → List Output → Type 0) (m : MainLoop) (o : Outcome D)
    → Leads Q o
    → Leads Q (if_alive m o)
if_alive-Leads Q crashed o k = tt
if_alive-Leads Q top o k = k
if_alive-Leads Q (joining c) o k = k
if_alive-Leads Q (waiting c late) o k = k
if_alive-Leads Q connecting o k = k
if_alive-Leads Q (starting i device) o k = k
if_alive-Leads Q finished o k = k

-- What two properties of a step's result say together.
pub Leads-both :
    {D : Type 0} (Q R S : Program D → List Output → Type 0) (o : Outcome D)
    → ((q : Program D) (ys : List Output) → Q q ys → R q ys → S q ys)
    → Leads Q o
    → Leads R o
    → Leads S o
Leads-both Q R S blocked f k l = tt
Leads-both Q R S (went q ys) f k l = f q ys k l

module _ {D : Type 0} (scale : ℤ → D → ℤ) (key_max : ℕ) where
  -- The program gets from a state to another, with these outputs on the way.
  pub data Reach (p : Program D) : Program D → List Output → Type 0 where
    here : Reach p p []
    later :
        {q r : Program D} {xs ys : List Output}
        → Reach p q xs
        → (m : Move) → Fits m
        → step scale key_max m q ≡ went r ys
        → Reach p r (xs ++ ys)

  -- What every step keeps holds on the way and at its end.
  pub Reach-keeps :
      {p q : Program D} {xs : List Output} (I : Program D → Type 0)
      → ((m : Move) (s : Program D) → Fits m → I s → Leads (λ t ys. I t) (step scale key_max m s))
      → I p
      → Reach p q xs
      → I q
  Reach-keeps I keeps v here = v
  Reach-keeps I keeps v (later r m fits e) =
      subst (Leads (λ t ys. I t)) e (keeps m _ fits (Reach-keeps I keeps v r))

  -- The same, with outputs that have P.
  pub Reach-All :
      {p q : Program D} {xs : List Output} (I : Program D → Type 0) (P : Output → Type 0)
      → ((m : Move) (s : Program D)
          → Fits m
          → I s
          → Leads (λ t ys. I t × All P ys) (step scale key_max m s))
      → I p
      → Reach p q xs
      → I q × All P xs
  Reach-All I P keeps v here = (v, tt)
  Reach-All I P keeps v (later {xs = xs} {ys = ys} r m fits e) =
      let (k, old) = Reach-All I P keeps v r in
      let (k', new) = subst (Leads (λ t ys. I t × All P ys)) e (keeps m _ fits k) in
      (k', All-append P xs ys old new)
