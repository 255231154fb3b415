-- ===== src/Api/Packages.antt =====
-- internal/api/packages.go: the packages and their content.
use opsramp_agent_orchestrat.Prelude.{
  ℕ, Option, none, some, List, length, Text, codes, is_empty, if◌then◌else◌,
}
use opsramp_agent_orchestrat.Model.{Package}
use opsramp_agent_orchestrat.Store.Packages.{
  list_packages, get_package, upsert_package, delete_package, get_package_content,
}
use opsramp_agent_orchestrat.Opamp.Hex.{hex_encode}
use opsramp_agent_orchestrat.Api.Http.{
  Request, done, packages_listed, one_package, package_bytes, Site, PackageBody, Handler,
  write_json, write_err, call, with_body,
}

unfoldable pub handle_list_packages : Site → Handler
unfolding list_packages
handle_list_packages s = call s list_packages (λ pkgs. write_json 200 (packages_listed pkgs))

unfoldable pub handle_get_package : Site → Text → Handler
unfolding get_package
handle_get_package s name = call s (get_package name) (λ pkg. write_json 200 (one_package pkg))

-- Its time is the zero time, as in the answer.
unfoldable pub package_from : Site → PackageBody → List ℕ → Package
unfolding hex_encode
package_from s b content = record {
  name = b.name;
  type = b.type;
  version = b.version;
  content_hash = hex_encode (s.setup.offering.sha256 content);
  signature = b.signature;
  size = length content;
  updated_at = 0;
}

unfoldable pub with_content : Site → PackageBody → Option (List ℕ) → Handler
unfolding package_from upsert_package
with_content s b none = write_err 400 (codes "content_base64 is not valid base64")
with_content s b (some content) =
    call s (upsert_package (package_from s b content) content)
      (λ _. write_json 201 (one_package (package_from s b content)))

unfoldable pub handle_upsert_package : Site → Request → Handler
unfolding with_content
handle_upsert_package s r = with_body (s.bodies.package_fields r.body) λ b.
    if is_empty b.name
    then write_err 400 (codes "package name is required")
    else with_content s b (s.base64 b.content_base64)

unfoldable pub handle_delete_package : Site → Text → Handler
unfolding delete_package
handle_delete_package s name = call s (delete_package name) (λ _. write_json 200 done)

unfoldable pub handle_package_content : Site → Text → Handler
unfolding get_package_content
handle_package_content s name =
    call s (get_package_content name) (λ content. write_json 200 (package_bytes name content))
