-- ===== src/ApiKeys/Issue.antt =====
-- A key that was issued opens the door, and a user has at most ten.
use host_container.Prelude.{
  ℕ, ◌≤◌, String, ◌≡◌, ◌⊎◌, refl, Bool, Bool-cases, Option-cases, true, false, Option, none, some,
  List, [], ◌∷◌, ◌++◌, take, arith, inl, inr, ltb, eq_iff,
}
use host_container.Schema.{ApiKeyRow}
use host_container.Tables.{find, count, count-append}
use host_container.World.{
  Outside, World, statement, random_read, ok, err, Error, refused, logged, Bigint, nonneg, negative,
  bad_bigint,
}
use host_container.Text.{codes}
use host_container.Http.{payload}
use host_container.Networks.Handlers.{user_or_empty}
use host_container.Jwt.{Jwt}
use host_container.Auth.{has_key, resolve_api_key}
use host_container.ApiKeys.{
  NewKey, max_api_keys_per_user, of_user, same_key, count_keys, raw_key, insert_key, create_key,
}

-- The row that was added is the one that its key finds.
find-issued :
    (out : Outside) (jwt : Jwt) (hash_key : String → String) (raw : String) (n : ApiKeyRow)
    (ks : List ApiKeyRow)
    → n.key_hash ≡ hash_key raw
    → find (same_key n) ks ≡ none
    → find (has_key out jwt hash_key raw) (ks ++ n ∷ []) ≡ some n
find-issued out jwt hash_key raw n [] h k =
    let own = (eq_iff n.key_hash (hash_key raw)).1 h in ground arith
find-issued out jwt hash_key raw n (x ∷ ks) h k = ground (
  arith,
  find-issued out jwt hash_key raw n ks h,
  eq_iff x.key_hash (hash_key raw),
  eq_iff x.key_hash n.key_hash,
)

module _ (out : Outside) (hash_key : String → String) where
  -- The insertion is refused, or it appends a row of the user under the hash of the key.
  insert_key_cases :
      (user_id name raw : String) (w : World)
      → ((e : Error) × (insert_key out hash_key user_id name raw w ≡ (err e, logged statement w)))
        ⊎ ((made : NewKey) × (user : ℕ) × (n : ApiKeyRow) × (out.to_bigint user_id
              ≡ some (nonneg user))
            × (n.user_id ≡ user)
            × (n.key_hash ≡ hash_key raw)
            × (made.key ≡ raw)
            × (find (same_key n) w.db.api_keys ≡ none)
            × (insert_key out hash_key user_id name raw w ≡ (
              ok made,
              record w {
                db = record w.db { api_keys = w.db.api_keys ++ n ∷ [] };
                trace = statement ∷ w.trace;
              },
            )))
  unfolding insert_key
  insert_key_cases user_id name raw w = elim (Bool-cases (out.fails (statement ∷ w.trace))) [
    | inl lost ↦ inl (refused statement, ground arith)
    | inr up ↦ elim (Option-cases (out.to_bigint user_id)) [
      | inl e ↦ inl (bad_bigint, ground arith)
      | inr (negative m, e) ↦ inl (refused statement, ground arith)
      | inr (nonneg user, e) ↦
          let n : ApiKeyRow = record {
            id = out.new_uuid (statement ∷ w.trace);
            user_id = user;
            name = name;
            key_hash = hash_key raw;
            key_prefix = take 20 (codes raw);
            last_used_at = none;
            created_at = out.now w.trace;
          } in
          elim (Option-cases (find (same_key n) w.db.api_keys)) [
            | inr (x, f) ↦ inl (refused statement, ground arith)
            | inl f ↦ inr (
              record {
                id = out.uuid_text n.id;
                key = raw;
                name = name;
                prefix = n.key_prefix;
                created_at = n.created_at;
              },
              user,
              n,
              e,
              refl,
              refl,
              refl,
              f,
              ground arith,
            )
          ]
    ]
  ]

module _ (out : Outside) (hash_key : String → String) (valid : String → Bool)
    (user body : Option String) (w : World) where
  counts : (count_keys out (user_or_empty user) w).1 ≡ logged statement w
  unfolding count_keys
  counts = ground arith

  draws : (v : World) → (raw_key out v).1 ≡ logged random_read v
  unfolding raw_key
  draws v = refl

  -- What an answer 201 leaves.
  create_key_lem :
      (create_key out hash_key valid user body w).0.status ≡ 201
      → let after = (create_key out hash_key valid user body w).1 in
        (made : NewKey) × (id : ℕ) × (n : ApiKeyRow) × (out.to_bigint (user_or_empty user)
          ≡ some (nonneg id))
        × (n.user_id ≡ id)
        × (n.key_hash ≡ hash_key made.key)
        × (find (same_key n) w.db.api_keys ≡ none)
        × ((create_key out hash_key valid user body w).0.body ≡ payload made)
        × (after.db.api_keys ≡ w.db.api_keys ++ n ∷ [])
        × (ltb (count_keys out (user_or_empty user) w).0 max_api_keys_per_user ≡ true)
  unfolding create_key
  create_key_lem h = elim (Option-cases body) [
    | inl e ↦ absurd (ground arith)
    | inr (name, e) ↦ elim (Bool-cases (valid name)) [
      | inr unnamed ↦ absurd (ground arith)
      | inl named ↦
          elim (Bool-cases (ltb (count_keys out (user_or_empty user) w).0 max_api_keys_per_user)) [
            | inr full ↦ absurd (ground arith)
            | inl room ↦
                let counted = counts in
                let drew = draws (logged statement w) in
                elim (insert_key_cases out hash_key (user_or_empty user) name
                  (raw_key out (logged statement w)).0 (logged random_read (logged statement w))) [
                    | inl (e', f) ↦ absurd (ground arith)
                    | inr (made, id, n, k, l, m, o, f, g) ↦
                        (made, id, n, k, l, cc, f, ground arith, ground arith, room)
                  ]
          ]
    ]
  ]

  -- A key that was answered with 201 is accepted by the middleware's look-up, in any state that holds
  -- the same keys and in which the database answers, as the number that the user's id is cast to.
  pub create_key-resolve :
      (jwt : Jwt) (later : World)
      → (create_key out hash_key valid user body w).0.status ≡ 201
      → later.db.api_keys ≡ (create_key out hash_key valid user body w).1.db.api_keys
      → out.fails (statement ∷ later.trace) ≡ false
      → (made : NewKey) × (id : ℕ) × ((create_key out hash_key valid user body w).0.body
          ≡ payload made)
        × (out.to_bigint (user_or_empty user) ≡ some (nonneg id))
        × ((resolve_api_key out jwt hash_key made.key later).0 ≡ ok (out.to_text id))
  unfolding resolve_api_key
  create_key-resolve jwt later h same up =
      let (made, id, n, k, mine, hashed, fresh, shown, kept, _) = create_key_lem h in
      let found = find-issued out jwt hash_key made.key n w.db.api_keys hashed fresh in
      (made, id, shown, k, ground arith)

  -- Where the count was answered, a user has at most ten keys after such an answer.
  create_key-limit :
      (create_key out hash_key valid user body w).0.status ≡ 201
      → out.fails (statement ∷ w.trace) ≡ false
      → (k : Bigint) × (out.to_bigint (user_or_empty user) ≡ some k)
        × (count (of_user k) (create_key out hash_key valid user body w).1.db.api_keys ≤ 10)
  unfolding count_keys
  create_key-limit h up =
      let (made, id, n, k, mine, hashed, fresh, shown, kept, room) = create_key_lem h in
      let more = count-append (of_user (nonneg id)) w.db.api_keys n in (nonneg id, k, ground arith)
