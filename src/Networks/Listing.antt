-- ===== src/Networks/Listing.antt =====
-- `ListNetworks` of service/networkService.go: the joined rows, gathered by network.
--
-- The query is answered whole or refused: a connection that breaks between two rows, which the source
-- would take for their end since it does not ask `rows.Err()`, is not modelled.
pub mod Grouping
pub mod Shown
use host_container.Prelude.{
  ℕ, String, Bool, true, false, ◌&&◌, ◌||◌, not, Option, none, some, List, [], ◌∷◌, ◌++◌,
  if◌then◌else◌, ltb, ◌==◌, str_eq,
}
use host_container.Schema.{Db, NetworkRow, ContainerRow, ContainerNetworkRow}
use host_container.Tables.{find, select}
use host_container.World.{
  Outside, World, Action, Result, ok, err, Error, panicked, Bigint, matches, pool, cast, query,
}
use host_container.Networks.{NetworkInfo, ContainerMember}

-- A row as it is scanned: the columns of the outer joins may be NULL.
pub record ListRow : Type 0 where
  pub nid : String
  pub name : String
  pub docker_name : String
  pub created_at : ℕ
  pub alias : Option String
  pub proj_id : Option String
  pub proj_name : Option String
  pub status : Option String

-- The two joins, before they are scanned.
pub record JoinedNetwork : Type 0 where
  pub network : NetworkRow
  pub member : Option (ContainerNetworkRow × Option ContainerRow)

module _ (containers : List ContainerRow) (n : NetworkRow) where
  pub join_members : List ContainerNetworkRow → List JoinedNetwork
  join_members [] = []
  join_members (m ∷ ms) =
      record {
        network = n;
        member = some (m, find (λ (r : ContainerRow). r.id == m.container_id) containers);
      }
      ∷ join_members ms

-- LEFT JOIN container_networks, LEFT JOIN containers
pub join_network : Db → NetworkRow → List JoinedNetwork
unfolding join_members
join_network d n =
    elim (select (λ (m : ContainerNetworkRow). m.network_id == n.id) d.container_networks) [
      | [] ↦ record { network = n; member = none } ∷ []
      | m ∷ ms ↦ join_members d.containers n (m ∷ ms)
    ]

pub join_networks : Db → List NetworkRow → List JoinedNetwork
join_networks d [] = []
join_networks d (n ∷ ns) = join_network d n ++ join_networks d ns

-- c.id ASC: a NULL comes last.
pub member_before : JoinedNetwork → JoinedNetwork → Bool
member_before a b = elim a.member [
  | none ↦ false
  | some (_, none) ↦ false
  | some (_, some r) ↦ elim b.member [
    | none ↦ true
    | some (_, none) ↦ true
    | some (_, some s) ↦ ltb r.id s.id
  ]
]

-- ORDER BY n.created_at DESC, c.id ASC
pub before : JoinedNetwork → JoinedNetwork → Bool
unfolding member_before
before a b =
    ltb b.network.created_at a.network.created_at
    || a.network.created_at == b.network.created_at && member_before a b

pub insert_sorted : JoinedNetwork → List JoinedNetwork → List JoinedNetwork
insert_sorted x [] = x ∷ []
insert_sorted x (y ∷ ys) = if before y x then y ∷ insert_sorted x ys else x ∷ y ∷ ys

pub sort_rows : List JoinedNetwork → List JoinedNetwork
sort_rows [] = []
sort_rows (x ∷ xs) = insert_sorted x (sort_rows xs)

pub scan_row : Outside → JoinedNetwork → ListRow
scan_row out j =
    let n = j.network in
    let container : Option ContainerRow = elim j.member [ none ↦ none | some (_, c) ↦ c ] in
    record {
      nid = out.uuid_text n.id;
      name = n.name;
      docker_name = n.docker_net_name;
      created_at = n.created_at;
      alias = elim j.member [ none ↦ none | some (m, _) ↦ some m.alias ];
      proj_id = elim container [ none ↦ none | some c ↦ some (out.to_text c.id) ];
      proj_name = elim container [ none ↦ none | some c ↦ some c.project_name ];
      status = elim container [ none ↦ none | some c ↦ some c.status ];
    }

pub scan_rows : Outside → List JoinedNetwork → List ListRow
scan_rows out [] = []
scan_rows out (j ∷ js) = scan_row out j ∷ scan_rows out js

-- `netMap` and `order`.
pub record Gathered : Type 0 where
  pub net_map : String → Option NetworkInfo
  pub order : List String

pub store : String → NetworkInfo → (String → Option NetworkInfo) → String → Option NetworkInfo
store key info f id = if str_eq key id then some info else f id

pub first_info : ListRow → NetworkInfo
first_info r = record {
  id = r.nid;
  name = r.name;
  docker_name = r.docker_name;
  created_at = r.created_at;
  members = [];
}

-- The member of a row. `*projName` and `*status` are read where `alias` and `projID` are not NULL:
-- a NULL there is a panic.
pub data Member : Type 0 where
  no_member bad_member : Member
  member_of : ContainerMember → Member

pub read_member : ListRow → Member
read_member r = elim r.alias [
  | none ↦ no_member
  | some alias ↦ elim r.proj_id [
    | none ↦ no_member
    | some id ↦ elim r.proj_name [
      | none ↦ bad_member
      | some name ↦ elim r.status [
        | none ↦ bad_member
        | some status ↦
            member_of (record { project_id = id; name = name; alias = alias; status = status })
      ]
    ]
  ]
]

pub add_member : ContainerMember → NetworkInfo → NetworkInfo
add_member m info = record info { members = info.members ++ m ∷ [] }

-- One turn of `for rows.Next()`.
pub gather_row : ListRow → Gathered → Result Gathered
gather_row r g =
    let g' : Gathered = elim (g.net_map r.nid) [
      | some _ ↦ g
      | none ↦ record {
        net_map = store r.nid (first_info r) g.net_map;
        order = g.order ++ r.nid ∷ [];
      }
    ] in
    elim (read_member r) [
      | no_member ↦ ok g'
      | bad_member ↦ err panicked
      | member_of m ↦ elim (g'.net_map r.nid) [
        | none ↦ err panicked
        | some info ↦ ok (record g' { net_map = store r.nid (add_member m info) g'.net_map })
      ]
    ]

pub gather : List ListRow → Gathered → Result Gathered
gather [] g = ok g
gather (r ∷ rs) g = elim (gather_row r g) [ ok g' ↦ gather rs g' | err e ↦ err e ]

-- `append(result, *netMap[id])` in the order of the ids.
pub in_order : List String → (String → Option NetworkInfo) → Result (List NetworkInfo)
in_order [] f = ok []
in_order (id ∷ ids) f = elim (f id) [
  | none ↦ err panicked
  | some info ↦ elim (in_order ids f) [ ok rest ↦ ok (info ∷ rest) | err e ↦ err e ]
]

pub group_rows : List ListRow → Result (List NetworkInfo)
group_rows rows = elim (gather rows (record { net_map = λ _. none; order = [] })) [
  | ok g ↦ in_order g.order g.net_map
  | err e ↦ err e
]

module _ (out : Outside) where
  unfoldable pub list_networks : String → Action (List NetworkInfo)
  list_networks user_id = query out pool λ d. cast out user_id λ k. group_rows (
      scan_rows out
        (sort_rows (join_networks d (select (λ (n : NetworkRow). matches k n.user_id) d.networks))))
