-- ===== src/Worker/Jails/Config.antt =====
-- kqueue_parent.py, `transform_json`: the parameters of the jail of a container.
use dockermock.Prelude.{
  ◌≡◌, refl, ℕ, Bool, true, false, Option, none, some, List, [], ◌∷◌, ◌++◌, if◌then◌else◌, ◌==◌,
  string_eq, nat_beq, Bool-cases, inl, inr,
}
use Prim.Native.String.{String}
use dockermock.Prelude.Text.{Text, codes}
use dockermock.Worker.Calls.{Net}
use dockermock.Worker.Jails.{ContainerData}

pub data Value : Type 0 where
  text : Text → Value
  number : ℕ → Value
  flag : Bool → Value
  addresses : List Text → Value

-- The dict of a jail's parameters, in the order of insertion.
abbrev pub JailParams : Type 0
JailParams = List (String × Value)

-- os.path.join of a path and a relative one
unfoldable pub path_join : Text → Text → Text
path_join [] b = b
path_join (c ∷ []) b = if nat_beq c b'/' then c ∷ b else c ∷ b'/' ∷ b
path_join (c ∷ d ∷ a) b = c ∷ path_join (d ∷ a) b

-- 'networks' in data and data['networks'] and data['networks'][0]['driver'] == 'host'
abbrev pub is_host : List Net → Bool
is_host [] = false
is_host (network ∷ networks) = network.driver == "host"

unfoldable pub transform_json : ContainerData → JailParams
transform_json data' =
    ("name", text data'.name)
    ∷ ("host.hostname", text (data'.name ++ codes ".jail"))
    ∷ ("path", text (path_join data'.path (codes "root")))
    ∷ ("devfs_ruleset", number 4)
    ∷ ("securelevel", number 2)
    ∷ (if is_host data'.networks then ("ip4", number 2) else ("vnet", flag true))
    ∷ ("sysvshm", number 1)
    ∷ ("sysvmsg", number 1)
    ∷ ("sysvsem", number 1)
    ∷ ("persist", flag true)
    ∷ []

unfoldable pub get_param : String → JailParams → Option Value
get_param key [] = none
get_param key ((k, v) ∷ params) = if k == key then some v else get_param key params

-- A jail has a network stack of its own, or the host's addresses, and never both: the host's when
-- its first network has the driver "host".
pub transform_json-network :
    (data' : ContainerData)
    → (get_param "vnet" (transform_json data')
        ≡ (if is_host data'.networks then none else some (flag true)))
      × (get_param "ip4" (transform_json data')
          ≡ (if is_host data'.networks then some (number 2) else none))
unfolding transform_json get_param
transform_json-network data' = elim (Bool-cases (is_host data'.networks)) [
  | inl host ↦ rw host (refl, refl)
  | inr bridged ↦ rw bridged (refl, refl)
]
