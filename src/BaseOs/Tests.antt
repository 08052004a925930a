-- ===== src/BaseOs/Tests.antt =====
-- A plan of the base system that is approved.
use xaac_thin_client_os.Machine.Sample.{plain_host}
use xaac_thin_client_os.Base.{strip_prefix, ℕ, pos, true, String, List, none, some, [], ◌∷◌, refl}
use xaac_thin_client_os.Json.{json_eq, Fields, num, text, arr, obj, cons, nil, fields}
use xaac_thin_client_os.Machine.{
  World, Host, Disk, Outcome, completed, ◌>>=◌, pure, raise, run, traverse,
}
use xaac_thin_client_os.Update.{setting, to_int, int_setting}
use xaac_thin_client_os.BaseOs.Plan.{
  Change, Plan, Approval, dpkg_compare, is_kept_up, downgrades, prefix_of, approve, validate_plan,
}
use xaac_thin_client_os.BaseOs.Plan.Accepted.{IsAllowed, validate_plan-IsAllowed}

abbrev policy : Fields
policy = fields (
    (
      "policy",
      obj (
          fields (
            ("maximum_changed_packages", num (pos 5))
            ∷ ("maximum_new_packages", num (pos 1))
            ∷ ("protected_packages", arr (cons (text "xaac-agent") nil))
            ∷ ("reboot_package_prefixes", arr (cons (text "linux-image") nil))
            ∷ [])),
    )
    ∷ [])

abbrev kernel : Change
kernel = record {
  pkg = "linux-image-amd64";
  base_package = "linux-image-amd64";
  installed = some "6.12.1";
  candidate = "6.12.2";
}

abbrev tool : Change
tool = record { pkg = "tool:amd64"; base_package = "tool"; installed = none; candidate = "1" }

abbrev plan : Plan
plan = record { changes = kernel ∷ tool ∷ []; removals = [] }

-- A host whose dpkg answers yes.
abbrev agree : ℕ → List String → Disk → Outcome × Disk
agree n command d = (completed 0 "" "", d)

abbrev host : Host
host = record plain_host { exec = agree }

abbrev machine : World
machine = record { host = host; time = 0; disk = []; trace = [] }

abbrev approval : Approval
approval = record {
  status = "available";
  changed_packages = 2;
  new_packages = 1;
  reboot_recommended = true;
  packages = kernel ∷ tool ∷ [];
}

validate_plan-IsAllowed_example :
    IsAllowed (pos 5) (pos 1) (text "xaac-agent" ∷ []) plan approval machine
unfolding setting to_int int_setting ◌>>=◌ pure raise run traverse dpkg_compare is_kept_up
    downgrades prefix_of approve validate_plan json_eq strip_prefix
validate_plan-IsAllowed_example =
    validate_plan-IsAllowed policy plan (pos 5) (pos 1) (arr (cons (text "xaac-agent") nil))
      (text "xaac-agent" ∷ []) machine approval refl refl refl refl refl
