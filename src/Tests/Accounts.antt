-- ===== src/Tests/Accounts.antt =====
-- Examples: deleting a user.
use host_container.Prelude.{◌≡◌, refl, none, some, [], if◌then◌else◌, ◌==◌}
use host_container.Tables.{find, select}
use host_container.World.{Bigint, matches}
use host_container.Users.{delete_user, delete_user_by_id, delete_user_row, delete_containers_of}
use host_container.Users.Deletion.{delete_user-removes}
use host_container.Tests.{calm, start}

delete_user-removes_example :
    (k : Bigint) × (calm.to_bigint "1" ≡ some k)
    × (find (λ u. matches k u.id) (delete_user calm "1" start).1.db.users ≡ none)
    × (select (λ r. r.user_id == 1) (delete_user calm "1" start).1.db.containers
        ≡ (if matches k 1 then [] else select (λ r. r.user_id == 1) start.db.containers))
unfolding delete_user delete_user_by_id delete_user_row delete_containers_of
delete_user-removes_example = delete_user-removes calm "1" start 1 refl
