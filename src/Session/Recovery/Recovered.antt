-- ===== src/Session/Recovery/Recovered.antt =====
-- A recovery of the master password, and a save without the recovery key.
use myminivault.Prelude.{
  ◌≡◌, refl, true, false, [], Option, none, some, Option-cases, arith, Bytes, bytes_eq_iff,
  is_empty, inl, inr, ok, err, Result-cases,
}
use myminivault.Prelude.Int.{inc64}
use myminivault.Model.{ExtendedVault, RecoveryData, VaultMetadata}
use myminivault.Rollback.{State}
use myminivault.Recovery.Open.{validate_key_bytes}
use myminivault.Session.Recovery.{
  Holder, Writes, SessionError, save_vault, new_password, open_with_key, recover_master_password,
}
use myminivault.Session.Recovery.Fresh.{recorded, recorded-valid, stored, opens, saved_with_key}

opened_parts :
    (sha256 : Bytes → Bytes) (s : Writes) (h : Holder) (key : Bytes) (vault : ExtendedVault)
    (r : RecoveryData)
    → open_with_key sha256 s h key ≡ ok (vault, r)
    → validate_key_bytes sha256 r key ≡ true
unfolding open_with_key
opened_parts sha256 s h key vault r e = elim (Option-cases h.snapshot) [
  | inl n ↦ ground (arith, n)
  | inr (snapshot, n) ↦ elim (Option-cases snapshot.vault.recovery) [
    | inl m ↦ ground (arith, n, m)
    | inr (r', m) ↦ ground (arith, n, m)
  ]
]

new_password_parts :
    (sha256 : Bytes → Bytes) (s : Writes) (typed confirm : Option Bytes) (password : Bytes)
    → new_password sha256 s typed confirm ≡ ok password
    → (typed ≡ some password) × (confirm ≡ some password) × (is_empty password ≡ false)
unfolding new_password
new_password_parts sha256 s none confirm password e = ground arith
new_password_parts sha256 s (some p) none password e = ground arith
new_password_parts sha256 s (some p) (some again) password e = ground (arith, bytes_eq_iff p again)

-- The recovery data after one more use.
abbrev used : Writes → RecoveryData → RecoveryData
used s r = record r { last_used = s.now; use_count = inc64 r.use_count }

recover_parts :
    (sha256 : Bytes → Bytes) (s : Writes) (key password : Bytes) (typed confirm : Option Bytes)
    (vault : ExtendedVault) (r : RecoveryData) (h h' : Holder)
    → open_with_key sha256 s h key ≡ ok (vault, r)
    → new_password sha256 s typed confirm ≡ ok password
    → recover_master_password sha256 s key typed confirm h ≡ (ok tt, h')
    → (left : Holder) × (save_vault s
          (record vault { recovery = some (used s r) })
          password
          (record h { current_key = key })
        ≡ (ok tt, left))
      × (h' ≡ record left { current_key = [] })
unfolding recover_master_password
recover_parts sha256 s key password typed confirm vault r h h' o n e =
    let run =
      save_vault s (record vault { recovery = some (used s r) }) password
        (record h { current_key = key }) in
    (run.1, ground (arith, o, n), ground (arith, o, n))

closed :
    (sha256 : Bytes → Bytes) (s : Writes) (key : Bytes) (typed confirm : Option Bytes)
    (h h' : Holder) (x : SessionError)
    → open_with_key sha256 s h key ≡ err x
    → recover_master_password sha256 s key typed confirm h ≡ (ok tt, h')
    → ⊥
unfolding recover_master_password
closed sha256 s key typed confirm h h' x o e = ground (arith, o)

refused :
    (sha256 : Bytes → Bytes) (s : Writes) (key : Bytes) (typed confirm : Option Bytes)
    (h h' : Holder) (vault : ExtendedVault) (r : RecoveryData) (x : SessionError)
    → open_with_key sha256 s h key ≡ ok (vault, r)
    → new_password sha256 s typed confirm ≡ err x
    → recover_master_password sha256 s key typed confirm h ≡ (ok tt, h')
    → ⊥
unfolding recover_master_password
refused sha256 s key typed confirm h h' vault r x o n e = ground (arith, o, n)

-- The files after the save of a recovery.
left_behind :
    (sha256 : Bytes → Bytes) (s : Writes) (vault : ExtendedVault) (r : RecoveryData)
    (password key : Bytes) (meta : VaultMetadata) (state : State) (left h' : Holder)
    → validate_key_bytes sha256 r key ≡ true
    → left
      ≡ stored s (record vault { recovery = some (used s r) }) password key meta state (used s r)
    → h' ≡ record left { current_key = [] }
    → (h'.main.secret ≡ password)
      × (h'.main.vault.contents ≡ vault.contents)
      × (h'.main.vault.recovery ≡ some (recorded s meta (used s r)))
      × (open_with_key sha256 s h' key ≡ ok (h'.main.vault, recorded s meta (used s r)))
      × (h'.current_key ≡ [])
unfolding validate_key_bytes
left_behind sha256 s vault r password key meta state left h' valid done ends =
    let base = record vault { recovery = some (used s r) } in
    let final = record (stored s base password key meta state (used s r)) { current_key = [] } in
    let same : h' ≡ final = cc (ends, done) in
    rw same (
      refl,
      refl,
      refl,
      opens sha256 s final key (recorded s meta (used s r))
          (record vault { metadata = meta; recovery = some (recorded s meta (used s r)) }) refl refl
          (recorded-valid sha256 s meta (used s r) key valid),
      refl,
    )

-- A recovery that ends without an error opened the snapshot with the key. The stored vault has the
-- contents of that snapshot and one more use of the key, and opens under the password that was typed
-- twice and is not empty; the new snapshot is the stored vault, the same key opens it, and the session
-- has forgotten the key.
pub recover_master_password-stored :
    (sha256 : Bytes → Bytes) (s : Writes) (key : Bytes) (typed confirm : Option Bytes)
    (h h' : Holder)
    → is_empty key ≡ false
    → recover_master_password sha256 s key typed confirm h ≡ (ok tt, h')
    → (vault : ExtendedVault) × ((r r' : RecoveryData) × (password : Bytes) × (open_with_key sha256
            s h key
          ≡ ok (vault, r))
        × (typed ≡ some password)
        × (confirm ≡ some password)
        × (is_empty password ≡ false)
        × (h'.main.secret ≡ password)
        × (h'.main.vault.contents ≡ vault.contents)
        × (h'.main.vault.recovery ≡ some r')
        × (r'.use_count ≡ inc64 r.use_count)
        × (open_with_key sha256 s h' key ≡ ok (h'.main.vault, r'))
        × (h'.current_key ≡ []))
recover_master_password-stored sha256 s key typed confirm h h' given e =
    elim (Result-cases (open_with_key sha256 s h key)) [
      | inl (x, o) ↦ absurd (closed sha256 s key typed confirm h h' x o e)
      | inr ((vault, r), o) ↦ elim (Result-cases (new_password sha256 s typed confirm)) [
        | inl (x, n) ↦ absurd (refused sha256 s key typed confirm h h' vault r x o n e)
        | inr (password, n) ↦
            let (left, saved, ends) =
              recover_parts sha256 s key password typed confirm vault r h h' o n e in
            let (meta, (state, _, q, done)) =
              saved_with_key s (record vault { recovery = some (used s r) }) (used s r) password
                (record h { current_key = key }) left refl given saved in
            let (t, c, p) = new_password_parts sha256 s typed confirm password n in
            let (secret, contents, recovery, opens_again, forgotten) =
              left_behind sha256 s vault r password key meta state left h'
                (opened_parts sha256 s h key vault r o) done ends in
            (
              vault,
              (
                r,
                recorded s meta (used s r),
                password,
                o,
                t,
                c,
                p,
                secret,
                contents,
                recovery,
                refl,
                opens_again,
                forgotten,
              ),
            )
      ]
    ]
