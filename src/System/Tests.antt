-- ===== src/System/Tests.antt =====
-- Runs of the helpers, and their theorems there.
use dockermock.Prelude.{
  ◌*◌, ◌≡◌, refl, ◌≤◌, ◌<◌, ◌-◌, ◌^◌, true, false, [], ◌∷◌, ok, raise, os_error, Result,
  value_error, name_error,
}
use dockermock.Prelude.Text.{codes, Text}
use dockermock.Ip.{block_size}
use dockermock.Worker.Jails.Config.{text, number, flag, JailParams, path_join}
use dockermock.System.Netmask.{Octets, offset_to_netmask, number_of, offset_to_netmask-number_of}
use dockermock.System.Mounts.{
  Fs, mount_jail, mount_at, is_in, unmount_jail_mounts, mount_jail_defvs, cenoerr, cenopath,
}
use dockermock.System.Mounts.Rounds.{mount_jail-unmount}
use dockermock.Worker.Buffer.{lstrip, rstrip}
use dockermock.System.Rctl.{
  Amount, words, convert_to_bytes, convert_to_rctl_rules, resource_map, action_map, digits_from,
}
use dockermock.System.Rctl.Amounts.{megabyte, convert_to_bytes-decimal}

abbrev mask_24 : Octets
mask_24 = record { first = 255; second = 255; third = 255; fourth = 0 }

netmask_runs :
    (offset_to_netmask 24 ≡ ok mask_24)
    × (offset_to_netmask 12 ≡ ok (record { first = 255; second = 240; third = 0; fourth = 0 }))
    × (offset_to_netmask 33 ≡ raise value_error)
unfolding offset_to_netmask
netmask_runs = (refl, refl, refl)

offset_to_netmask-number_of_example :
    (24 ≤ 32)
    × (number_of mask_24 ≡ 2 ^ 32 - block_size 24)
    × (255 < 256)
    × (255 < 256)
    × (255 < 256)
    × (0 < 256)
offset_to_netmask-number_of_example = offset_to_netmask-number_of 24 mask_24 netmask_runs.0

abbrev params : JailParams
params = ("name", text (codes "web")) ∷ ("devfs_ruleset", number 4) ∷ ("vnet", flag true) ∷ []

abbrev root : Text
root = codes "/jails/containers/0a/root"

abbrev fs : Fs
fs = record { dirs = root ∷ []; mounts = [] }

abbrev makes_dir : Text → Result (Unit {0})
makes_dir path = ok tt

abbrev refuses_dir : Text → Result (Unit {0})
refuses_dir path = raise (os_error 28)

mount_runs :
    ((mount_jail_defvs makes_dir true root fs).0 ≡ ok cenoerr)
    × ((mount_jail_defvs makes_dir true (codes "/none") fs).0 ≡ ok cenopath)
    × ((mount_jail_defvs makes_dir true [] fs).0 ≡ raise name_error)
    × (mount_jail_defvs refuses_dir true root fs ≡ (raise (os_error 28), fs))
unfolding mount_jail mount_at is_in path_join
mount_runs = (refl, refl, refl, refl)

mount_jail-unmount_example :
    let fs' = (mount_jail makes_dir true (codes "dev") root fs).1 in
    let dev_path = path_join root (codes "dev") in
    (fs'.mounts ≡ dev_path ∷ [])
    × (is_in dev_path [] ≡ false)
    × ((unmount_jail_mounts true dev_path fs').0 ≡ cenoerr)
    × ((unmount_jail_mounts true dev_path fs').1.mounts ≡ [])
mount_jail-unmount_example = mount_jail-unmount makes_dir true (codes "dev") root fs mount_runs.0

rctl_runs :
    (convert_to_bytes (words (codes " 512m ")) ≡ Amount.number 536870912)
    × (convert_to_bytes (words (codes "many")) ≡ words (codes "MANY"))
    × (convert_to_rctl_rules
          (record { resource = "MEMORY"; maximum = words (codes "1G"); action = "BLOCK" }
            ∷ record { resource = "DISK"; maximum = Amount.number 1; action = "LOG" }
            ∷ [])
          (codes "jail:web")
        ≡ record {
          subject = codes "jail:web";
          rctl_resource = "memoryuse";
          rctl_action = "deny";
          amount = Amount.number 1073741824;
        }
          ∷ [])
unfolding convert_to_bytes convert_to_rctl_rules resource_map action_map digits_from lstrip rstrip
rctl_runs = (refl, refl, refl)

convert_to_bytes-decimal_example :
    convert_to_bytes (words (codes "64MB")) ≡ Amount.number (64 * (1024 * 1024))
convert_to_bytes-decimal_example =
    convert_to_bytes-decimal b'6' (codes "4") megabyte (refl, (refl, tt))
