-- ===== src/Tests/Rows.antt =====
-- The statements on organisations and memberships on the small server.
use go_cmms.Base.{◌≡◌, refl, ◌==◌, ◌&&◌, none, some, [], ◌∷◌, if◌then◌else◌}
use go_cmms.Base.Lists.{All}
use go_cmms.Text.{codes, text_eq}
use go_cmms.Models.{role_viewer}
use go_cmms.Db.{Db, Organisation, RoleEnum, role_of_text}
use go_cmms.Db.Orgs as Sql
use go_cmms.Db.Laws.{IsAmong, Precedes, pick_user_org-Precedes, ensure_membership-get_role}
use go_cmms.Tests.{toy_db}

abbrev acme : Organisation
acme = record {
  id = 7;
  slug = codes "acme";
  name = codes "acme";
  ms_tenant_id = none;
  created_at = 1;
}

pick_user_org-Precedes_example :
    (row : RoleEnum × Organisation) × (row.1 ≡ acme)
    × IsAmong row (Sql.with_org 1 toy_db.memberships toy_db)
    × All (Precedes row) (Sql.with_org 1 toy_db.memberships toy_db)
unfolding Sql.pick_user_org
pick_user_org-Precedes_example = pick_user_org-Precedes 1 toy_db acme refl

abbrev demoted_db : Db
demoted_db = record toy_db {
  memberships = record { org_id = 7; user_id = 1; role = RoleEnum.viewer } ∷ [];
}

ensure_membership-get_role_example :
    Sql.get_role 7 1 demoted_db
    ≡ (if 7 == 7 && 1 == 1 then some role_viewer else Sql.get_role 7 1 toy_db)
unfolding Sql.ensure_membership role_of_text text_eq
ensure_membership-get_role_example =
    ensure_membership-get_role 7 1 role_viewer role_viewer toy_db demoted_db refl 7 1
