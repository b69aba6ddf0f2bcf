-- ===== src/Files/Hoare.antt =====
-- Statements about calls for every schedule: what holds when a run is carried out, when it returns
-- an error and when the process stops in it.
use myminivault.Prelude.{List, [], ◌∷◌, ℕ}
use myminivault.Files.{
  Files, Outcome, done, failed, stopped, Exit, ok, err, crashed, World, Io, after_exit, after_error,
  drop_error, ◌>>=◌, ◌>>◌, ignore, on_error, call, by_outcome, next_outcome,
}

abbrev pub Post :
    {A : Type 0}
    → (A → Files → Type 0)
    → (Files → Type 0)
    → (Files → Type 0)
    → Exit A
    → Files
    → Type 0
Post Q E C (ok a) fs = Q a fs
Post Q E C (err e) fs = E fs
Post Q E C crashed fs = C fs

-- From files in `P` the run ends in `Q`, returns an error in `E`, or stops in `C`.
pub record Runs {A : Type 0} (C P : Files → Type 0) (m : Io A) (Q : A → Files → Type 0)
    (E : Files → Type 0) : Type 0 where
  pub at : (w : World) → P w.files → Post Q E C (m w).0 (m w).1.files

module _ (C : Files → Type 0) where
  module _ {A B : Type 0} {Q : A → Files → Type 0} {R : B → Files → Type 0}
      {E : Files → Type 0} where
    Runs-bind_exit :
        (f : A → Io B) (r : Exit A) (w : World)
        → ((a : A) → Runs C (Q a) (f a) R E)
        → Post Q E C r w.files
        → Post R E C (after_exit r f w).0 (after_exit r f w).1.files
    Runs-bind_exit f (ok a) w k h = (k a).at w h
    Runs-bind_exit f (err e) w k h = h
    Runs-bind_exit f crashed w k h = h

    pub Runs-bind :
        {P : Files → Type 0}
        → {m : Io A} → {f : A → Io B} → Runs C P m Q E
        → ((a : A) → Runs C (Q a) (f a) R E)
        → Runs C P (m >>= f) R E
    unfolding ◌>>=◌
    Runs-bind {m = m} {f = f} h k = record {
      at = λ w p. Runs-bind_exit f (m w).0 (m w).1 k (h.at w p);
    }

  module _ {B : Type 0} {P Q : Files → Type 0} {R : B → Files → Type 0} {E : Files → Type 0} where
    pub Runs-then :
        {m : Io (Unit {0})} {k : Io B}
        → Runs C P m (λ _. Q) E
        → Runs C Q k R E
        → Runs C P (m >> k) R E
    unfolding ◌>>◌
    Runs-then {m} {k} h g = record {
      at = λ w p.
          Runs-bind_exit {Q = λ _. Q} {R = R} {E = E} (λ _. k) (m w).0 (m w).1 (λ _. g) (h.at w p);
    }

  module _ {A : Type 0} {E E' : Files → Type 0} (Q : A → Files → Type 0) where
    Runs-on_error_exit :
        (cleanup : Io (Unit {0})) (r : Exit A) (w : World)
        → Runs C E' cleanup (λ _. E) E
        → Post Q E' C r w.files
        → Post Q E C (after_error r cleanup w).0 (after_error r cleanup w).1.files
    Runs-on_error_exit cleanup (ok a) w k h = h
    Runs-on_error_exit cleanup crashed w k h = h
    Runs-on_error_exit cleanup (err e) w k h = after_cleanup (cleanup w).0 (cleanup w).1 (k.at w h)
      where
        after_cleanup :
            (r : Exit (Unit {0})) (v : World)
            → Post (λ _. E) E C r v.files
            → Post Q E C (elim r [ crashed ↦ crashed | _ ↦ err e ]) v.files
        after_cleanup (ok a) v p = p
        after_cleanup (err d) v p = p
        after_cleanup crashed v p = p

    pub Runs-on_error :
        {P : Files → Type 0}
        → {m : Io A} → {cleanup : Io (Unit {0})} → Runs C P m Q E'
        → Runs C E' cleanup (λ _. E) E
        → Runs C P (on_error m cleanup) Q E
    unfolding on_error
    Runs-on_error {m = m} {cleanup = cleanup} h k = record {
      at = λ w p. Runs-on_error_exit cleanup (m w).0 (m w).1 k (h.at w p);
    }

  module _ (Q E : Files → Type 0) where
    Runs-ignore_exit :
        (r : Exit (Unit {0})) (w : World)
        → Post (λ _. Q) Q C r w.files
        → Post (λ _. Q) E C (drop_error r) w.files
    Runs-ignore_exit (ok a) w h = h
    Runs-ignore_exit (err e) w h = h
    Runs-ignore_exit crashed w h = h

    pub Runs-ignore :
        {P : Files → Type 0}
        → {m : Io (Unit {0})} → Runs C P m (λ _. Q) Q
        → Runs C P (ignore m) (λ _. Q) E
    unfolding ignore
    Runs-ignore {m = m} h = record { at = λ w p. Runs-ignore_exit (m w).0 (m w).1 (h.at w p) }

  module _ {A : Type 0} {E E' : Files → Type 0} {Q Q' : A → Files → Type 0} where
    weaken_exit :
        (r : Exit A) (fs : Files)
        → ((a : A) (f : Files) → Q a f → Q' a f)
        → ((f : Files) → E f → E' f)
        → Post Q E C r fs
        → Post Q' E' C r fs
    weaken_exit (ok a) fs q e h = q a fs h
    weaken_exit (err x) fs q e h = e fs h
    weaken_exit crashed fs q e h = h

    pub Runs-weaken :
        {P P' : Files → Type 0}
        → {m : Io A} → ((f : Files) → P' f → P f)
        → ((a : A) (f : Files) → Q a f → Q' a f)
        → ((f : Files) → E f → E' f)
        → Runs C P m Q E
        → Runs C P' m Q' E'
    Runs-weaken {m = m} p q e h = record {
      at = λ w x. weaken_exit (m w).0 (m w).1.files q e (h.at w (p w.files x));
    }

  module _ {A : Type 0} {P E : Files → Type 0} {Q : A → Files → Type 0} where
    -- A call, from what it does when it is carried out and what it leaves when it is not.
    pub Runs-call :
        (effect : Files → Exit A × Files) (partial : ℕ → Files → Files)
        → ((fs : Files) → P fs → Post Q E C (effect fs).0 (effect fs).1)
        → ((n : ℕ) (fs : Files) → P fs → E (partial n fs) × C (partial n fs))
        → Runs C P (call effect partial) Q E
    unfolding call
    Runs-call effect partial good bad = record { at = λ w p. go w.schedule w.files p }
      where
        go :
            (l : List Outcome) (fs : Files)
            → P fs
            → let r = by_outcome (next_outcome l) effect partial fs in Post Q E C r.0 r.1
        go [] fs p = good fs p
        go (done ∷ l) fs p = good fs p
        go (failed n ∷ l) fs p = (bad n fs p).0
        go (stopped n ∷ l) fs p = (bad n fs p).1

-- Where a weaker condition is asked for at a stop.
stops_exit :
    {A : Type 0} {C C' : Files → Type 0} (Q : A → Files → Type 0) (E : Files → Type 0) (r : Exit A)
    (fs : Files)
    → ((f : Files) → C f → C' f)
    → Post Q E C r fs
    → Post Q E C' r fs
stops_exit Q E (ok a) fs c h = h
stops_exit Q E (err x) fs c h = h
stops_exit Q E crashed fs c h = c fs h

module _ {A : Type 0} {C C' P E : Files → Type 0} {Q : A → Files → Type 0} where
  pub Runs-stops : {m : Io A} → ((f : Files) → C f → C' f) → Runs C P m Q E → Runs C' P m Q E
  Runs-stops {m = m} c h = record { at = λ w p. stops_exit Q E (m w).0 (m w).1.files c (h.at w p) }
