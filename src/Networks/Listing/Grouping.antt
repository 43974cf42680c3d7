-- ===== src/Networks/Listing/Grouping.antt =====
-- The listing shows every network once, in the order of the rows, with the members of all its rows.
use host_container.Prelude.{
  String, ◌≡◌, ◌⊎◌, ◌≢◌, refl, sym, ap, subst, ◌∙◌, Bool, Bool-cases, Option-cases, true, false,
  ◌||◌, Option, none, some, List, [], ◌∷◌, ◌++◌, map, All, arith, if◌then◌else◌, inl, inr, str_eq,
  eq_iff,
}
use host_container.Tables.{find}
use host_container.World.{ok}
use host_container.Networks.{NetworkInfo, ContainerMember}
use host_container.Networks.Listing.{
  ListRow, Gathered, Member, no_member, bad_member, member_of, store, first_info, read_member,
  add_member, gather_row, gather,
}

abbrev pub has_nid : String → ListRow → Bool
has_nid id r = str_eq r.nid id

abbrev pub mem : String → List String → Bool
mem id [] = false
mem id (x ∷ xs) = str_eq x id || mem id xs

-- The rows that show a network for the first time.
unfoldable pub heads : List String → List ListRow → List ListRow
heads seen [] = []
heads seen (r ∷ rs) =
    let again = heads seen rs in
    let first = heads (seen ++ r.nid ∷ []) rs in if mem r.nid seen then again else r ∷ first

-- The members that the rows of one network name.
pub members_of : String → List ListRow → List ContainerMember
members_of id [] = []
members_of id (r ∷ rs) =
    let rest = members_of id rs in
    if str_eq r.nid id then elim (read_member r) [ member_of m ↦ m ∷ rest | _ ↦ rest ] else rest

-- What a listing is: for each network the columns of its first row, and the members of its rows.
unfoldable pub summaries : List ListRow → List NetworkInfo
summaries rows =
    map (λ r. record (first_info r) { members = members_of r.nid rows }) (heads [] rows)

-- What the map holds of a network, once the rows are read.
abbrev pub resume : Option NetworkInfo → List ListRow → String → Option NetworkInfo
resume (some info) rows id = some (record info { members = info.members ++ members_of id rows })
resume none rows id = elim (find (has_nid id) rows) [
  | none ↦ none
  | some r ↦ some (record (first_info r) { members = members_of id rows })
]

abbrev later : (String → Option NetworkInfo) → List ListRow → String → Option NetworkInfo
later f rows id = resume (f id) rows id

-- The map holds exactly the networks of the order.
abbrev Matching : Gathered → Type 0
Matching g = (id : String) → (elim (g.net_map id) [ none ↦ false | some _ ↦ true ]) ≡ mem id g.order

append_nil : {A : Type 0} (xs : List A) → xs ++ [] ≡ xs
append_nil [] = refl
append_nil (x ∷ xs) = ap (λ ys. x ∷ ys) (append_nil xs)

append_assoc : {A : Type 0} (xs ys zs : List A) → (xs ++ ys) ++ zs ≡ xs ++ (ys ++ zs)
append_assoc [] ys zs = refl
append_assoc (x ∷ xs) ys zs = ap (λ l. x ∷ l) (append_assoc xs ys zs)

pub mem-append :
    (id x : String) (ids : List String) → mem id (ids ++ x ∷ []) ≡ (mem id ids || str_eq x id)
mem-append id x [] = ground arith
mem-append id x (y ∷ ids) = ground (arith, mem-append id x ids)

Member-cases :
    (m : Member)
    → (m ≡ no_member) ⊎ ((m ≡ bad_member) ⊎ ((c : ContainerMember) × (m ≡ member_of c)))
Member-cases no_member = inl refl
Member-cases bad_member = inr (inl refl)
Member-cases (member_of c) = inr (inr (c, refl))

-- A map that agrees at the row's own network, and that is the old one elsewhere.
later_at :
    (r : ListRow) (f f' : String → Option NetworkInfo)
    → f' r.nid ≡ later f (r ∷ []) r.nid
    → ((id : String) → str_eq r.nid id ≡ false → f' id ≡ f id)
    → (id : String) → f' id ≡ later f (r ∷ []) id
unfolding members_of
later_at r f f' own others id = elim (Bool-cases (str_eq r.nid id)) [
  | inl same ↦ subst (λ x. f' x ≡ later f (r ∷ []) x) ((eq_iff r.nid id).0 same) own
  | inr other ↦ elim (Option-cases (f id)) [
    | inl e ↦ ground (arith, others id)
    | inr (info, e) ↦ ground (arith, others id, append_nil info.members)
  ]
]

-- What one row leaves.
gather_row_lem :
    (r : ListRow) (g : Gathered)
    → Matching g
    → read_member r ≢ bad_member
    → (g' : Gathered) × (gather_row r g ≡ ok g')
      × (g'.order ≡ (if mem r.nid g.order then g.order else g.order ++ r.nid ∷ []))
      × ((id : String) → g'.net_map id ≡ later g.net_map (r ∷ []) id)
unfolding gather_row store first_info add_member members_of
gather_row_lem r g matching good =
    let here = matching r.nid in
    let own = (eq_iff r.nid r.nid).1 refl in
    elim (Option-cases (g.net_map r.nid)) [
      | inl e ↦ elim (Member-cases (read_member r)) [
        | inl f ↦ (
          record { net_map = store r.nid (first_info r) g.net_map; order = g.order ++ r.nid ∷ [] },
          ground arith,
          ground arith,
          later_at r g.net_map (store r.nid (first_info r) g.net_map) (ground arith)
              (λ id other. ground arith),
        )
        | inr (inl f) ↦ absurd (good f)
        | inr (inr (m, f)) ↦ (
          record {
            net_map =
                store r.nid (add_member m (first_info r)) (store r.nid (first_info r) g.net_map);
            order = g.order ++ r.nid ∷ [];
          },
          ground arith,
          ground arith,
          later_at r g.net_map
              (store r.nid (add_member m (first_info r)) (store r.nid (first_info r) g.net_map))
              (ground arith) (λ id other. ground arith),
        )
      ]
      | inr (info, e) ↦ elim (Member-cases (read_member r)) [
        | inl f ↦ (
          g,
          ground arith,
          ground arith,
          later_at r g.net_map g.net_map (ground (arith, append_nil info.members))
              (λ id other. refl),
        )
        | inr (inl f) ↦ absurd (good f)
        | inr (inr (m, f)) ↦ (
          record g { net_map = store r.nid (add_member m info) g.net_map },
          ground arith,
          ground arith,
          later_at r g.net_map (store r.nid (add_member m info) g.net_map) (ground arith)
              (λ id other. ground arith),
        )
      ]
    ]

members_of-row :
    (id : String) (r : ListRow) (rs : List ListRow)
    → members_of id (r ∷ rs) ≡ members_of id (r ∷ []) ++ members_of id rs
unfolding members_of
members_of-row id r rs = ground arith

members_of-other :
    (id : String) (r : ListRow) → str_eq r.nid id ≡ false → members_of id (r ∷ []) ≡ []
unfolding members_of
members_of-other id r other = ground arith

-- Reading one row, then the others.
later-later :
    (r : ListRow) (rs : List ListRow) (f : String → Option NetworkInfo) (id : String)
    → later (later f (r ∷ [])) rs id ≡ later f (r ∷ rs) id
unfolding first_info
later-later r rs f id =
    let split = members_of-row id r rs in
    elim (Option-cases (f id)) [
      | inl e ↦ elim (Bool-cases (str_eq r.nid id)) [
        | inl same ↦ ground arith
        | inr other ↦ let skipped = members_of-other id r other in ground arith
      ]
      | inr (info, e) ↦
          let whole =
            ap (λ l. info.members ++ l) split
            ∙ sym (append_assoc info.members (members_of id (r ∷ [])) (members_of id rs)) in
          ground arith
    ]

-- A row that was read is matched again.
gather_row-Matching :
    (r : ListRow) (g g' : Gathered)
    → Matching g
    → g'.order ≡ (if mem r.nid g.order then g.order else g.order ++ r.nid ∷ [])
    → ((id : String) → g'.net_map id ≡ later g.net_map (r ∷ []) id)
    → Matching g'
gather_row-Matching r g g' matching o m id =
    let longer = mem-append id r.nid g.order in
    elim (Bool-cases (str_eq r.nid id)) [
      | inl same ↦
          let mine = ap (λ x. mem x g.order) ((eq_iff r.nid id).0 same) in
          elim (Option-cases (g.net_map id)) [
            | inl e ↦ ground (arith, m id, matching id)
            | inr (info, e) ↦ ground (arith, m id, matching id)
          ]
      | inr other ↦ elim (Option-cases (g.net_map id)) [
        | inl e ↦ ground (arith, m id, matching id)
        | inr (info, e) ↦ ground (arith, m id, matching id)
      ]
    ]

-- What the loop leaves.
pub gather_lem :
    (rows : List ListRow) (g : Gathered)
    → Matching g
    → All (λ r. read_member r ≢ bad_member) rows
    → (g' : Gathered) × (gather rows g ≡ ok g')
      × (g'.order ≡ g.order ++ map (λ r. r.nid) (heads g.order rows))
      × ((id : String) → g'.net_map id ≡ later g.net_map rows id)
unfolding gather heads members_of
gather_lem [] g matching good = (
  g,
  refl,
  sym (append_nil g.order),
  λ id. elim (Option-cases (g.net_map id)) [
    | inl e ↦ ground arith
    | inr (info, e) ↦ ground (arith, append_nil info.members)
  ],
)
gather_lem (r ∷ rs) g matching (good, goods) =
    let (g1, e1, o1, m1) = gather_row_lem r g matching good in
    let (g2, e2, o2, m2) = gather_lem rs g1 (gather_row-Matching r g g1 matching o1 m1) goods in
    let assoc =
      append_assoc g.order (r.nid ∷ []) (map (λ x. x.nid) (heads (g.order ++ r.nid ∷ []) rs)) in
    (
      g2,
      ground arith,
      elim (Bool-cases (mem r.nid g.order)) [ inl again ↦ ground arith | inr first ↦ ground arith ],
      λ id. m2 id ∙ ap (λ o. resume o rs id) (m1 id) ∙ later-later r rs g.net_map id,
    )
