-- ===== src/Api/Uploads.antt =====
-- internal/api/packages.go: a package that was uploaded, against reading and downloading it.
use opsramp_agent_orchestrat.Prelude.{
  ℕ, ◌≡◌, refl, ap, ◌∙◌, false, Option, some, List, Text, text_eq_refl, Result, ok, is_empty,
}
use opsramp_agent_orchestrat.Model.{Package}
use opsramp_agent_orchestrat.Store.World.{Error, PackageRow, World, find, upsert}
use opsramp_agent_orchestrat.Store.Steps.{IsReliable, read-IsReliable, write-IsReliable}
use opsramp_agent_orchestrat.Store.Packages.{
  has_package_name, require_package, require_content, upsert_package,
}
use opsramp_agent_orchestrat.Store.Packages.Shelf.{shelved, find-upsert_row}
use opsramp_agent_orchestrat.Api.Http.{
  Request, Response, one_package, package_bytes, PackageBody, State, Site, write_json, with_world,
  stored,
}
use opsramp_agent_orchestrat.Api.Packages.{
  package_from, with_content, handle_upsert_package, handle_get_package, handle_package_content,
}

-- The world with a row in the table.
abbrev with_row : Text → PackageRow → World → World
with_row name row w = record w {
  db = record w.db { packages = upsert (has_package_name name) (λ _. row) row w.db.packages };
}

module _ (s : Site) (r : Request) (b : PackageBody) (content : List ℕ) (st : State)
    (parsed : s.bodies.package_fields r.body ≡ ok b) (named : is_empty b.name ≡ false)
    (decodes : s.base64 b.content_base64 ≡ some content) (reliable : IsReliable st.world) where
  abbrev row : PackageRow
  row = shelved st.world.now (package_from s b content) content

  abbrev behind : State
  behind = with_world st (with_row b.name row st.world)

  handle_upsert_package-IsReliable :
      handle_upsert_package s r st
      ≡ (record { status = 201; payload = one_package (package_from s b content) }, behind)
  unfolding handle_upsert_package with_content upsert_package package_from
  handle_upsert_package-IsReliable =
      rw
        (
          parsed,
          named,
          decodes,
          write-IsReliable
              (λ now db. record db {
                packages =
                    upsert (has_package_name b.name)
                      (λ _. shelved now (package_from s b content) content)
                      (shelved now (package_from s b content) content) db.packages;
              })
              st.world reliable,
        )
        refl

  found : find (has_package_name b.name) behind.world.db.packages ≡ some row
  unfolding package_from
  found =
      find-upsert_row b.name b.name row st.world.db.packages refl ∙ rw (text_eq_refl b.name) refl

  -- Uploading a package with a name and content that base64 decodes, while the database answers, is
  -- answered with 201; then downloading the name gives exactly the decoded bytes, and reading it the
  -- package with their size and the hexadecimal form of their hash.
  pub handle_upsert_package-download :
      ((handle_upsert_package s r st).0
        ≡ record { status = 201; payload = one_package (package_from s b content) })
      × ((handle_package_content s b.name (handle_upsert_package s r st).1).0
          ≡ record { status = 200; payload = package_bytes b.name content })
      × ((handle_get_package s b.name (handle_upsert_package s r st).1).0 ≡ record {
        status = 200;
        payload = one_package (record (package_from s b content) { updated_at = st.world.now });
      })
  unfolding handle_package_content handle_get_package require_package require_content package_from
  handle_upsert_package-download = (
    ap (λ (p : Response × State). p.0) handle_upsert_package-IsReliable,
    ap (λ (p : Response × State). (handle_package_content s b.name p.1).0)
          handle_upsert_package-IsReliable
        ∙ ap
            (λ (p : Result Error (List ℕ) × World).
              (stored s p (λ c. write_json 200 (package_bytes b.name c)) behind).0)
            (read-IsReliable (λ db. require_content (find (has_package_name b.name) db.packages))
                behind.world reliable
              ∙ ap (λ (o : Option PackageRow). (require_content o, behind.world)) found),
    ap (λ (p : Response × State). (handle_get_package s b.name p.1).0)
          handle_upsert_package-IsReliable
        ∙ ap
            (λ (p : Result Error Package × World).
              (stored s p (λ c. write_json 200 (one_package c)) behind).0)
            (read-IsReliable (λ db. require_package (find (has_package_name b.name) db.packages))
                behind.world reliable
              ∙ ap (λ (o : Option PackageRow). (require_package o, behind.world)) found),
  )
