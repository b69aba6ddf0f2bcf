-- ===== src/Files/Temp/Fill.antt =====
-- For every schedule: filling a temporary file keeps what holds of the other names.
use myminivault.Prelude.{◌≡◌, Bytes, Option, some}
use myminivault.Files.{Name, Node, file, Files, Io, update, ignore, remove, write}
use myminivault.Files.Hoare.{Runs, Runs-bind, Runs-then, Runs-on_error, Runs-ignore, Runs-weaken}
use myminivault.Files.Calls.{
  Runs-sync_file, Runs-close_file, Runs-create_exclusive, Runs-write, Runs-remove,
}
use myminivault.Files.Temp.{abandon, fill_temp}

-- `P` holds before, `C` wherever the process stops or an error is returned; neither speaks of the
-- temporary file.
module _ (C P : Files → Type 0) (safe : (fs : Files) → P fs → C fs) (beside : Name)
    (kept : (fs : Files) (entry : Option Node) → P fs → P (update fs beside entry))
    (kept_safe : (fs : Files) (entry : Option Node) → C fs → C (update fs beside entry))
    (new : Bytes) where
  abbrev IsWritten : Files → Type 0
  IsWritten fs = P fs × (fs beside ≡ some (file new))

  -- Errors that leave the files safe.
  pub loosely :
      {A : Type 0} {Q : Files → Type 0} {m : Io A} {R : A → Files → Type 0}
      → ((fs : Files) → Q fs → C fs)
      → Runs C Q m R Q
      → Runs C Q m R C
  loosely below h = Runs-weaken C (λ f p. p) (λ a f q. q) below h

  pub Runs-drop_temp : Runs C C (ignore (remove beside)) (λ _. C) C
  Runs-drop_temp = Runs-ignore C C C (
      Runs-weaken C (λ f p. p) (λ a f q. q.0) (λ f e. e)
        (Runs-remove C C (λ fs p. p) beside kept_safe))

  Runs-abandon : Runs C C (abandon beside) (λ _. C) C
  unfolding abandon
  Runs-abandon = Runs-then C (Runs-ignore C C C (Runs-close_file C C (λ fs p. p))) Runs-drop_temp

  Runs-write_new :
      (data' : Bytes) → Runs C (λ fs. P fs × (data' ≡ new)) (write beside data') (λ _. IsWritten) C
  Runs-write_new data' = record { at = λ w p. (written p.1).at w p.0 }
    where
      written : data' ≡ new → Runs C P (write beside data') (λ _. IsWritten) C
      written e =
          Runs-weaken C (λ f p. p) (λ a f q. (q.0, rw (← e) q.1)) safe
            (Runs-write C P safe beside kept data')

  -- The temporary file is filled with what the source gives.
  pub Runs-fill_temp :
      (source : Io Bytes)
      → Runs C P source (λ data' fs. P fs × (data' ≡ new)) C
      → Runs C P (fill_temp beside source) (λ _. IsWritten) C
  unfolding fill_temp
  Runs-fill_temp source h =
      let written : (fs : Files) → IsWritten fs → C fs = λ fs p. safe fs p.0 in
      Runs-then C (loosely safe (Runs-create_exclusive C P safe beside kept)) (
        Runs-bind C (Runs-on_error C _ h Runs-abandon) (λ data'.
          Runs-then C (Runs-on_error C (λ _. IsWritten) (Runs-write_new data') Runs-abandon) (
            Runs-then C
              (Runs-on_error C (λ _. IsWritten)
                (loosely written (Runs-sync_file C IsWritten written)) Runs-abandon)
              (Runs-on_error C (λ _. IsWritten)
                (loosely written (Runs-close_file C IsWritten written)) Runs-drop_temp))))
