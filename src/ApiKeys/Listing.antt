-- ===== src/ApiKeys/Listing.antt =====
-- `List` of service/apiKeyHandler.go.
--
-- How the database driver scans a time into a Go string is a parameter: an error is `none`. As it
-- documents, a failed scan closes the rows; the code drops that error and keeps what was scanned.
use host_container.Schema.{ApiKeyRow}
use host_container.Tables.{select}
use host_container.World.{Outside, Action, ok, pool, cast, query}
use host_container.Http.{Handler, message, payload, respond, answer}
use host_container.Networks.Handlers.{user_or_empty}
use host_container.ApiKeys.{of_user}
use host_container.Prelude.{
  List, ℕ, String, ◌∷◌, Option, ◌≡◌, [], if◌then◌else◌, none, Bool, false, ltb, some, true, arith,
  Option-cases, inl, inr,
}

pub record ApiKeyItem : Type 0 where
  pub id : String
  pub name : String
  pub prefix : List ℕ
  pub last_used_at : Option String
  pub created_at : String

-- ORDER BY created_at DESC
pub insert_key_desc : ApiKeyRow → List ApiKeyRow → List ApiKeyRow
insert_key_desc k [] = k ∷ []
insert_key_desc k (x ∷ xs) =
    let later = x ∷ insert_key_desc k xs in
    if ltb k.created_at x.created_at then later else k ∷ x ∷ xs

pub newest_keys : List ApiKeyRow → List ApiKeyRow
unfolding insert_key_desc
newest_keys [] = []
newest_keys (k ∷ ks) = insert_key_desc k (newest_keys ks)

module _ (out : Outside) (scan_time : ℕ → Option String) where
  -- The item before its two times were scanned.
  abbrev pub unscanned : ApiKeyRow → ApiKeyItem
  unscanned k = record {
    id = out.uuid_text k.id;
    name = k.name;
    prefix = k.key_prefix;
    last_used_at = none;
    created_at = "";
  }

  -- `last_used_at`, unless that time does not scan.
  abbrev pub scan_last : ApiKeyRow → Option (Option String)
  scan_last k = elim k.last_used_at [
    | none ↦ some none
    | some t ↦ elim (scan_time t) [ none ↦ none | some s ↦ some (some s) ]
  ]

  -- The item, and whether the scan succeeded.
  pub scan_key : ApiKeyRow → ApiKeyItem × Bool
  scan_key k = elim (scan_last k) [
    | none ↦ (unscanned k, false)
    | some last ↦ elim (scan_time k.created_at) [
      | none ↦ (record (unscanned k) { last_used_at = last }, false)
      | some s ↦ (record (unscanned k) { last_used_at = last; created_at = s }, true)
    ]
  ]

  -- The loop over the rows.
  pub scan_keys : List ApiKeyRow → List ApiKeyItem
  unfolding scan_key
  scan_keys [] = []
  scan_keys (k ∷ ks) =
      let rest = scan_keys ks in
      let (item, is_scanned) = scan_key k in if is_scanned then item ∷ rest else item ∷ []

  pub keys_of : String → Action (List ApiKeyRow)
  keys_of user_id =
      query out pool λ d. cast out user_id λ k. ok (newest_keys (select (of_user k) d.api_keys))

  pub list_keys : Option String → Handler (List ApiKeyItem)
  list_keys user =
      answer (keys_of (user_or_empty user)) (λ e. respond 500 (message "internal error"))
        (λ ks. respond 200 (payload (scan_keys ks)))

  scan_key_lem :
      (k : ApiKeyRow) → ((t : ℕ) → scan_time t ≡ none) → scan_key k ≡ (unscanned k, false)
  unfolding scan_key
  scan_key_lem k h = elim (Option-cases k.last_used_at) [
    | inl e ↦ ground (arith, h k.created_at)
    | inr (t, e) ↦ ground (arith, h t)
  ]

  -- Where the driver scans no time into a string, a user with keys is shown one of them, the first of
  -- the rows, and with no time.
  pub scan_keys-one :
      (k : ApiKeyRow) (ks : List ApiKeyRow)
      → ((t : ℕ) → scan_time t ≡ none)
      → scan_keys (k ∷ ks) ≡ unscanned k ∷ []
  unfolding scan_keys
  scan_keys-one k ks h = ground (arith, scan_key_lem k h)
