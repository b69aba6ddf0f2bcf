-- ===== src/Token/Execute/Confined.antt =====
-- What a token command shows and changes is what the permissions and the pattern of its token allow.
use myminivault.Prelude.{
  subst, sym, ap, ◌∙◌, ◌≡◌, ◌⊎◌, refl, Bool, true, ◌&&◌, List, [], ◌∷◌, some, arith, Bytes, codes,
  bytes_eq, bytes_eq_iff, bytes_eq_refl, contains_text, any, All, All-imp, Dict, lookup,
  lookup-insert, entries, ok, is_some, Bool-cases, Option-cases, inl, inr,
}
use myminivault.Model.{AccessToken, ExtendedVault, Time}
use myminivault.Commands.Export.{keys, bytes_le, sort_strings}
use myminivault.Commands.Sorting.{has, has-sort_strings, has-keys, All-sort_strings}
use myminivault.Sync.{mark_key_updated_at}
use myminivault.Token.{contains}
use myminivault.Token.Execute.{
  UseLibrary, TokenCommand, Shown, value, was_set, listed, found, allows, insert_result,
  allowed_keys, search_results, execute_token_get, execute_token_set, execute_token_list,
  execute_token_search, execute_with_token,
}
use myminivault.Token.Execute.Counting.{
  execute_with_token-IsDispatched, execute_with_token-IsSaved, save_successful_token_use-IsCounted,
}

module _ (lib : UseLibrary) (token : AccessToken) where
  abbrev MayRead : Bytes → Type 0
  MayRead key = (contains token.permissions (codes "read") ≡ true) × (allows lib token key ≡ true)

  abbrev MayWrite : Bytes → Type 0
  MayWrite key = (contains token.permissions (codes "write") ≡ true) × (allows lib token key ≡ true)

  -- The keys that the list shows are those of the vault that the pattern allows.
  has-allowed_keys :
      (j : Bytes) (contents : Dict Bytes)
      → has j (allowed_keys lib token contents) ≡ (has j (keys contents) && allows lib token j)
  unfolding allowed_keys keys
  has-allowed_keys j [] = refl
  has-allowed_keys j ((k, v) ∷ contents) =
      ground (arith, has-allowed_keys j contents, bytes_eq_iff k j)

  abbrev IsHeld : Dict Bytes → Bytes × Bytes → Type 0
  IsHeld contents (k, v) = any (λ e. bytes_eq e.0 k && bytes_eq e.1 v) contents ≡ true

  -- The result may be shown: its key is allowed, and the vault has the pair.
  abbrev IsDue : Dict Bytes → Bytes × Bytes → Type 0
  IsDue contents e = (allows lib token e.0 ≡ true) × IsHeld contents e

  All-insert_result :
      (P : Bytes × Bytes → Type 0) (k v : Bytes) (results : Dict Bytes)
      → P (k, v)
      → All P results
      → All P (insert_result k v results)
  unfolding insert_result
  All-insert_result P k v [] h a = (h, tt)
  All-insert_result P k v ((j, w) ∷ results) h a = elim (Bool-cases (bytes_le k j)) [
    | inl e ↦ rw e (h, a)
    | inr e ↦ rw e (a.0, All-insert_result P k v results h a.1)
  ]

  IsHeld-cons :
      (e : Bytes × Bytes) (contents : Dict Bytes) (results : Dict Bytes)
      → All (IsDue contents) results
      → All (IsDue (e ∷ contents)) results
  IsHeld-cons e contents results h = All-imp (λ r d. (d.0, ground arith)) results h

  search_results-AreDue :
      (search_pattern : Bytes) (contents : Dict Bytes)
      → All (IsDue contents) (search_results lib token search_pattern contents)
  unfolding search_results
  search_results-AreDue search_pattern [] = tt
  search_results-AreDue search_pattern ((k, v) ∷ contents) =
      let rest = IsHeld-cons (k, v) contents _ (search_results-AreDue search_pattern contents) in
      elim (Bool-cases (allows lib token k && contains_text (lib.to_lower k) search_pattern)) [
        | inl e ↦ rw e (
            All-insert_result (IsDue ((k, v) ∷ contents)) k v _
              (ground arith, ground (arith, bytes_eq_refl k, bytes_eq_refl v)) rest)
        | inr e ↦ rw e rest
      ]

  All-allowed_keys :
      (contents : Dict Bytes)
      → All (λ k. allows lib token k ≡ true) (allowed_keys lib token contents)
  unfolding allowed_keys
  All-allowed_keys [] = tt
  All-allowed_keys ((k, v) ∷ contents) = elim (Bool-cases (allows lib token k)) [
    | inl e ↦ rw e (e, All-allowed_keys contents)
    | inr e ↦ rw e (All-allowed_keys contents)
  ]

  -- What is shown is read where the pattern allows it, and is in the vault.
  abbrev pub IsJustified : ExtendedVault → Shown → Type 0
  IsJustified vault (value key v) = MayRead key × (lookup key (entries vault.contents) ≡ some v)
  IsJustified vault (was_set key) = MayWrite key
  IsJustified vault (listed pattern shown_keys) =
      (contains token.permissions (codes "read") ≡ true)
      × All (λ k. allows lib token k ≡ true) shown_keys
  IsJustified vault (found pattern results) =
      (contains token.permissions (codes "read") ≡ true)
      × All (IsDue (entries vault.contents)) results

  module _ (save_ok : Bool) (now : Time) (vault : ExtendedVault) where
    execute_token_get-IsJustified :
        (key : Bytes) (json_output show_output : Bool) (shown : Shown) (saved : ExtendedVault)
        → execute_token_get lib save_ok vault token key json_output show_output ≡ ok (shown, saved)
        → IsJustified vault shown
    unfolding execute_token_get
    execute_token_get-IsJustified key json_output show_output shown saved h =
        elim (Option-cases (lookup key (entries vault.contents))) [
          | inl n ↦ ground arith
          | inr (v, e) ↦
              let e' : value key v ≡ shown = ground arith in
              subst (IsJustified vault) e' ((ground arith, ground arith), e)
        ]

    execute_token_set-IsJustified :
        (key v : Bytes) (shown : Shown) (saved : ExtendedVault)
        → execute_token_set lib save_ok now vault token key v ≡ ok (shown, saved)
        → IsJustified vault shown
    unfolding execute_token_set
    execute_token_set-IsJustified key v shown saved h =
        let e : was_set key ≡ shown = ground arith in
        subst (IsJustified vault) e (ground arith, ground arith)

    -- What `list` shows.
    execute_token_list-eq_listed :
        (shown : Shown) (saved : ExtendedVault)
        → execute_token_list lib save_ok vault token ≡ ok (shown, saved)
        → (contains token.permissions (codes "read") ≡ true)
          × (listed token.key_pattern
                (sort_strings (allowed_keys lib token (entries vault.contents)))
              ≡ shown)
    unfolding execute_token_list
    execute_token_list-eq_listed shown saved h = (ground arith, ground arith)

    execute_token_list-IsJustified :
        (shown : Shown) (saved : ExtendedVault)
        → execute_token_list lib save_ok vault token ≡ ok (shown, saved)
        → IsJustified vault shown
    execute_token_list-IsJustified shown saved h =
        let (read, e) = execute_token_list-eq_listed shown saved h in
        subst (IsJustified vault) e (
          read,
          All-sort_strings _ (allowed_keys lib token (entries vault.contents))
              (All-allowed_keys (entries vault.contents)),
        )

    execute_token_search-IsJustified :
        (pattern : Bytes) (json_output show_output : Bool) (shown : Shown) (saved : ExtendedVault)
        → execute_token_search lib save_ok vault token pattern json_output show_output
          ≡ ok (shown, saved)
        → IsJustified vault shown
    unfolding execute_token_search
    execute_token_search-IsJustified pattern json_output show_output shown saved h =
        let due = search_results-AreDue (lib.to_lower pattern) (entries vault.contents) in
        let e : found pattern
              (search_results lib token (lib.to_lower pattern) (entries vault.contents))
            ≡ shown =
          ground arith in
        subst (IsJustified vault) e (ground arith, due)

    -- A command that succeeds shows only pairs of the vault whose keys the pattern allows, and only
    -- with permission to read; it reports a write only with permission to write and for an allowed key.
    pub execute_with_token-IsJustified :
        (request : TokenCommand) (shown : Shown) (saved : ExtendedVault)
        → execute_with_token lib save_ok now vault token request ≡ ok (shown, saved)
        → IsJustified vault shown
    execute_with_token-IsJustified request shown saved h =
        elim (execute_with_token-IsDispatched lib save_ok now vault token request (shown, saved)
          h) [
            | inl (key, e) ↦ execute_token_get-IsJustified key _ _ shown saved e
            | inr (inl (key, v, e)) ↦ execute_token_set-IsJustified key v shown saved e
            | inr (inr (inl e)) ↦ execute_token_list-IsJustified shown saved e
            | inr (inr (inr (pattern, e))) ↦
                execute_token_search-IsJustified pattern _ _ shown saved e
          ]

    -- The list has exactly the keys of the vault that the pattern allows.
    pub execute_token_list-exact :
        (shown : Shown) (saved : ExtendedVault)
        → execute_token_list lib save_ok vault token ≡ ok (shown, saved)
        → (shown_keys : List Bytes) × (shown ≡ listed token.key_pattern shown_keys)
          × ((j : Bytes)
              → has j shown_keys
                ≡ (is_some (lookup j (entries vault.contents)) && allows lib token j))
    execute_token_list-exact shown saved h =
        let contents = entries vault.contents in
        (
          sort_strings (allowed_keys lib token contents),
          sym (execute_token_list-eq_listed shown saved h).1,
          λ j.
              has-sort_strings j (allowed_keys lib token contents)
              ∙ has-allowed_keys j contents
              ∙ ap (λ b. b && allows lib token j) (has-keys j contents),
        )

    -- A command that succeeds leaves every key of the vault as it was that the token may not write.
    pub execute_with_token-confined :
        (request : TokenCommand) (shown : Shown) (saved : ExtendedVault) (j : Bytes)
        → execute_with_token lib save_ok now vault token request ≡ ok (shown, saved)
        → (lookup j (entries saved.contents) ≡ lookup j (entries vault.contents)) ⊎ MayWrite j
    unfolding mark_key_updated_at
    execute_with_token-confined request shown saved j h =
        let (prepared, same, e) =
          execute_with_token-IsSaved lib save_ok now vault token request shown saved h in
        let (_, kept) =
          save_successful_token_use-IsCounted save_ok prepared saved token.token_id e in
        let kept_contents : saved.contents ≡ prepared.contents = ap (λ v. v.contents) kept in
        elim same [
          | inl p ↦ inl (ap (λ c. lookup j (entries c)) (kept_contents ∙ ap (λ v. v.contents) p))
          | inr (key, v, contents, w, a, c, p) ↦ elim (Bool-cases (bytes_eq key j)) [
            | inl s ↦ inr (w, subst (λ k. allows lib token k ≡ true) ((bytes_eq_iff key j).0 s) a)
            | inr s ↦ inl (
                ap (λ c. lookup j (entries c)) (kept_contents ∙ ap (λ v. v.contents) p)
                ∙ lookup-insert key j v contents
                ∙ rw (s, c) refl)
          ]
        ]
