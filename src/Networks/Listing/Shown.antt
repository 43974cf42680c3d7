-- ===== src/Networks/Listing/Shown.antt =====
-- The listing as a whole, and that it does not panic.
use host_container.Prelude.{
  String, ◌≡◌, ◌≢◌, refl, sym, ap, subst, Bool-cases, Option-cases, false, Option, none, some, List,
  [], ◌∷◌, ◌++◌, map, All, arith, inl, inr, str_eq, eq_iff,
}
use host_container.Schema.{NetworkRow}
use host_container.Tables.{find, select}
use host_container.World.{Outside, World, statement, ok, logged, Bigint, matches}
use host_container.Networks.{NetworkInfo}
use host_container.Networks.Listing.{
  ListRow, JoinedNetwork, first_info, bad_member, read_member, in_order, group_rows, scan_row,
  scan_rows, sort_rows, join_networks, list_networks,
}
use host_container.Networks.Listing.Grouping.{
  has_nid, mem, mem-append, heads, members_of, summaries, resume, gather_lem,
}

-- A first row is the one that a search for its network finds, and its network was not seen before.
abbrev Found : List String → List ListRow → ListRow → Type 0
Found seen rows r = (find (has_nid r.nid) rows ≡ some r) × (mem r.nid seen ≡ false)

All-mono :
    {P Q : ListRow → Type 0} (rows : List ListRow)
    → ((r : ListRow) → P r → Q r)
    → All P rows
    → All Q rows
All-mono [] f h = tt
All-mono (r ∷ rows) f (p, ps) = (f r p, All-mono rows f ps)

heads-Found : (seen : List String) (rows : List ListRow) → All (Found seen rows) (heads seen rows)
unfolding heads
heads-Found seen [] = tt
heads-Found seen (r ∷ rs) = elim (Bool-cases (mem r.nid seen)) [
  | inl again ↦
      let same : heads seen (r ∷ rs) ≡ heads seen rs = ground arith in
      subst (All (Found seen (r ∷ rs))) (sym same) (
        All-mono (heads seen rs)
          (λ x found. elim (Bool-cases (str_eq r.nid x.nid)) [
            | inl twice ↦
                let moved = ap (λ y. mem y seen) ((eq_iff r.nid x.nid).0 twice) in
                absurd (ground (arith, found.1))
            | inr other ↦ (ground (arith, found.0), found.1)
          ])
          (heads-Found seen rs))
  | inr first ↦
      let same : heads seen (r ∷ rs) ≡ r ∷ heads (seen ++ r.nid ∷ []) rs = ground arith in
      let own = (eq_iff r.nid r.nid).1 refl in
      subst (All (Found seen (r ∷ rs))) (sym same) (
        (ground arith, first),
        All-mono (heads (seen ++ r.nid ∷ []) rs)
            (λ x found.
              let longer = mem-append x.nid r.nid seen in
              (ground (arith, found.0, found.1), ground (arith, found.1)))
            (heads-Found (seen ++ r.nid ∷ []) rs),
      )
]

in_order_lem :
    (hs rows : List ListRow) (f : String → Option NetworkInfo)
    → ((id : String) → f id ≡ resume none rows id)
    → All (Found [] rows) hs
    → in_order (map (λ r. r.nid) hs) f
      ≡ ok (map (λ r. record (first_info r) { members = members_of r.nid rows }) hs)
unfolding in_order
in_order_lem [] rows f m found = refl
in_order_lem (r ∷ hs) rows f m ((at, _), found) =
    ground (arith, m r.nid, in_order_lem hs rows f m found)

-- Where each row that names a member has all its columns, what is gathered is the summary.
group_rows_lem :
    (rows : List ListRow)
    → All (λ r. read_member r ≢ bad_member) rows
    → group_rows rows ≡ ok (summaries rows)
unfolding group_rows summaries
group_rows_lem rows good =
    let (g, e, o, m) =
      gather_lem rows (record { net_map = λ _. none; order = [] }) (λ id. refl) good in
    let listed = in_order_lem (heads [] rows) rows g.net_map m (heads-Found [] rows) in ground arith

scan_row_good : (out : Outside) (j : JoinedNetwork) → read_member (scan_row out j) ≢ bad_member
unfolding scan_row read_member
scan_row_good out j h = elim (Option-cases j.member) [
  | inl e ↦ ground arith
  | inr ((m, none), e) ↦ ground arith
  | inr ((m, some c), e) ↦ ground arith
]

scan_rows_good :
    (out : Outside) (js : List JoinedNetwork)
    → All (λ r. read_member r ≢ bad_member) (scan_rows out js)
unfolding scan_rows
scan_rows_good out [] = tt
scan_rows_good out (j ∷ js) = (scan_row_good out j, scan_rows_good out js)

-- A listing of networks that the database answers does not panic. It shows each network of the user
-- once, in the order of the sorted rows, with the columns of its first row and the members that
-- its rows name, in their order.
pub list_networks-summaries :
    (out : Outside) (user_id : String) (w : World) {k : Bigint}
    → out.fails (statement ∷ w.trace) ≡ false
    → out.to_bigint user_id ≡ some k
    → list_networks out user_id w ≡ (
      ok (
          summaries (
            scan_rows out (
              sort_rows (
                join_networks w.db
                  (select (λ (n : NetworkRow). matches k n.user_id) w.db.networks))))),
      logged statement w,
    )
unfolding list_networks
list_networks-summaries out user_id w {k = k} up e =
    let shown =
      group_rows_lem
        (scan_rows out (
          sort_rows
            (join_networks w.db (select (λ (n : NetworkRow). matches k n.user_id) w.db.networks))))
        (scan_rows_good out (
          sort_rows (
            join_networks w.db
              (select (λ (n : NetworkRow). matches k n.user_id) w.db.networks)))) in
    ground arith
