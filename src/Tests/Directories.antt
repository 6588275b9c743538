-- ===== src/Tests/Directories.antt =====
-- The account groups over a table in memory.
use quota_lane.Prelude.{ℕ, ◌≡◌, ◌↔◌, refl, none, [], ◌∷◌, arith, map}
use quota_lane.Prelude.Int.{pos}
use quota_lane.Prelude.Effect.{ok}
use quota_lane.Account.{Account}
use quota_lane.AccountGroup.{AccountGroup, get_default_group, update, perform}
use quota_lane.AccountGroup.Laws.{IsUnique}
use quota_lane.AccountGroup.Names.{IsUpToDate, perform-IsUnique}
use quota_lane.AccountGroup.Default.{In, get_default_group_iff}
use quota_lane.AccountGroup.Memory.{
  Directory, name_in, memory_groups, memory_accounts, memory_view, memory_groups-IsLawful,
  look_up_ok,
}

abbrev backup : AccountGroup
backup = record {
  id = 4;
  name = "backup";
  description = "";
  priority = pos 1;
  account_ids = 1 ∷ [];
  created_at = 0;
  updated_at = 0;
}

abbrev directory : Directory
directory = record { groups = backup ∷ []; accounts = λ _. none; listed = [] }

one_name : IsUnique memory_view directory
unfolding name_in
one_name i j n p q = ground arith

up_to_date :
    IsUpToDate memory_groups memory_accounts
      (λ _. 5)
      memory_view
      memory_groups-IsLawful
      (update 4 "backup" "" (pos 2) [])
      directory
up_to_date g s' e = look_up_ok 4 directory.groups directory s' g e

perform-IsUnique_example :
    IsUnique memory_view
      (perform memory_groups memory_accounts (λ _. 5) (update 4 "backup" "" (pos 2) []) directory)
perform-IsUnique_example =
    perform-IsUnique memory_groups memory_accounts (λ _. 5) memory_view memory_groups-IsLawful
      (update 4 "backup" "" (pos 2) []) directory (omega arith) up_to_date one_name

get_default_group_iff_example :
    (g : AccountGroup) × (get_default_group memory_groups memory_accounts (λ _. 5) directory
      ≡ (ok g, directory))
    × ((i : ℕ) → In i g.account_ids ↔ (In i (map (λ (x : Account). x.id) []) × ¬ In i (1 ∷ [])))
get_default_group_iff_example =
    get_default_group_iff memory_groups memory_accounts (λ _. 5) directory directory directory
      ([], 0) (1 ∷ []) refl refl
