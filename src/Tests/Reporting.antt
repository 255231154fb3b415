-- ===== src/Tests/Reporting.antt =====
-- The theorems on the fleet report, at a small inventory.
use opsramp_agent_orchestrat.Prelude.{
  ◌<◌, ◌≤◌, Text, text_eq, ok, err, length, ◌≡◌, ◌≢◌, refl, ◌⊎◌, List, [], ◌∷◌, ◌++◌, codes,
}
use opsramp_agent_orchestrat.Reconcile.{
  HostRef, Report, report, ref, ip_list, join_ips, is_outdated, repair_reason, upgrade_reason,
}
use opsramp_agent_orchestrat.Reconcile.Fleet.{
  Runs, AllAtMost, is_down, recommended, targets, report-latest_version, report-recommendations,
}
use opsramp_agent_orchestrat.Reconcile.Versions.{plus, compare_version}
use opsramp_agent_orchestrat.Reconcile.Versions.Order.{flip, compare_version-IsOrder}
use opsramp_agent_orchestrat.Deploy.Targets.{
  is_separator, has_char, is_seen, max_targets, expand_targets, too_many, no_targets,
}
use opsramp_agent_orchestrat.Deploy.Targets.Prefill.{expand_targets-join_ips}
use opsramp_agent_orchestrat.Model.{OpsRampAgent}
use opsramp_agent_orchestrat.Tests.Samples.{inventory_agent, syntax}

abbrev fleet : List OpsRampAgent
fleet =
    inventory_agent
    ∷ record inventory_agent { agent_version = codes "1.10.0"; agent_status = codes "UP" }
    ∷ []

abbrev fleet_report : Report
fleet_report = report 7 (λ m. m) fleet

report-latest_version_example :
    ((fleet_report.latest_version ≡ []) ⊎ Runs fleet_report.latest_version fleet)
    × AllAtMost fleet_report.latest_version fleet
report-latest_version_example = report-latest_version 7 (λ m. m) fleet

report-recommendations_example :
    fleet_report.recommendations
    ≡ recommended (codes "repair") repair_reason (targets is_down fleet)
      ++ recommended
          (codes "upgrade")
          (upgrade_reason fleet_report.latest_version)
          (targets (is_outdated fleet_report.latest_version) fleet)
report-recommendations_example = report-recommendations 7 (λ m. m) fleet

compare_version-IsOrder_example :
    (compare_version (codes "1.2") (codes "1.10")
      ≡ flip (compare_version (codes "1.10") (codes "1.2")))
    × (compare_version (codes "1.10") (codes "1.2") ≢ plus
        → compare_version (codes "1.2") (codes "2") ≢ plus
        → compare_version (codes "1.10") (codes "2") ≢ plus)
compare_version-IsOrder_example = compare_version-IsOrder (codes "1.10") (codes "1.2") (codes "2")

abbrev refs : List HostRef
refs =
    ref (record inventory_agent { ip_address = codes "h" })
    ∷ ref (record inventory_agent { ip_address = codes "i" })
    ∷ ref (record inventory_agent { ip_address = codes "h" })
    ∷ []

abbrev two_hosts : List Text
two_hosts = codes "h" ∷ codes "i" ∷ []

expand_targets-join_ips_example :
    (0 < length two_hosts
      → length two_hosts ≤ max_targets
      → expand_targets syntax (join_ips refs) ≡ ok two_hosts)
    × (max_targets < length two_hosts → expand_targets syntax (join_ips refs) ≡ err too_many)
    × (ip_list refs ≡ [] → expand_targets syntax (join_ips refs) ≡ err no_targets)
unfolding ref ip_list is_separator has_char is_seen text_eq
expand_targets-join_ips_example = expand_targets-join_ips syntax refs (
  (((refl, (refl, tt)), refl, refl)),
  ((((refl, (refl, tt)), refl, refl)), ((((refl, (refl, tt)), refl, refl)), tt)),
)
