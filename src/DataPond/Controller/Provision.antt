-- ===== src/DataPond/Controller/Provision.antt =====
-- contrib/data-pond/src/controller.rs, `get_volume_or_provision`: a volume that the controller does not know
-- is put together from the bindings that the ponds report.
pub mod Recovery
use eecs_k8s.Prelude.{
  ℕ, suc, ◌+◌, ◌%◌, ltb, ◌==◌, String, str_eq, Bool, true, false, Option, none, some, List, [], ◌∷◌,
  length, if◌then◌else◌,
}
use eecs_k8s.Prelude.Panic.{Result, ok, err, panic, ◌>>=◌}
use eecs_k8s.Prelude.Select.{find, filter}
use eecs_k8s.Prelude.Sort.{sort_by_key}
use eecs_k8s.Prelude.Dict.{string_eq, Dict, get, insert}
use eecs_k8s.DataPond.Types.{Status, VolumeBindingMetadata, VolumeOptions, unavailable, internal}
use eecs_k8s.DataPond.Binding.{Pond, VolumeBindingClaim}
use eecs_k8s.DataPond.Server.{ok_or}
use eecs_k8s.DataPond.Controller.{State, Volume}

unfoldable pub claim_of : Pond → VolumeBindingMetadata → Result Status VolumeBindingClaim
unfolding find
claim_of pond metadata =
    ok_or (find (λ d. str_eq d.id metadata.device_id) pond.devices) (internal "No such device: ")
    >>= λ device. ok (record { device = device; metadata = metadata; pond = pond })

unfoldable pub claims_of :
    Pond → List VolumeBindingMetadata → Result Status (List VolumeBindingClaim)
unfolding claim_of
claims_of pond [] = ok []
claims_of pond (m ∷ ms) = do b ← claim_of pond m; bs ← claims_of pond ms; ok (b ∷ bs)

abbrev pub append : List VolumeBindingClaim → List VolumeBindingClaim → List VolumeBindingClaim
append [] ys = ys
append (x ∷ xs) ys = x ∷ append xs ys

unfoldable pub discover_bindings :
    String → Dict String Pond → Result Status (List VolumeBindingClaim)
unfolding claims_of filter
discover_bindings volume_id [] = ok []
discover_bindings volume_id ((pond_id, pond) ∷ ponds) = do
  found ← claims_of pond (filter (λ m. str_eq m.volume_id volume_id) pond.bindings)
  more ← discover_bindings volume_id ponds
  ok (append found more)

-- An `i32` is a residue below 2 ^ 32; as `usize` it is extended by its sign.
unfoldable pub as_usize : ℕ → ℕ
as_usize n = if ltb n 2_147_483_648 then n else n + 18_446_744_069_414_584_320

unfoldable pub index_key : VolumeBindingClaim → List ℕ
index_key b = (b.metadata.index_bindings + 2_147_483_648) % 4_294_967_296 ∷ []

-- The position of each binding, from a first one, is its index.
unfoldable pub in_order : ℕ → List VolumeBindingClaim → Bool
unfolding as_usize
in_order index [] = true
in_order index (b ∷ bs) =
    if index == as_usize b.metadata.index_bindings then in_order (suc index) bs else false

unfoldable pub expected : List VolumeBindingClaim → Option ℕ
unfolding as_usize
expected [] = none
expected (b ∷ bs) = some (as_usize b.metadata.total_bindings)

-- The bindings by their index, if they are as many as the first says.
unfoldable pub validate_total :
    Option ℕ → List VolumeBindingClaim → Result Status (List VolumeBindingClaim)
unfolding in_order index_key sort_by_key
validate_total none bs = err (unavailable "Volume bindings not found")
validate_total (some total) bs =
    let sorted = sort_by_key index_key bs in
    if length bs == total
    then (if in_order 0 sorted then ok sorted else err (internal "Invalid volume partition order"))
    else err (unavailable "Insufficient volume bindings: expected ")

unfoldable pub validate : List VolumeBindingClaim → Result Status (List VolumeBindingClaim)
unfolding expected validate_total
validate bs = validate_total (expected bs) bs

-- The state with the volume that is provisioned.
unfoldable pub provision : String → VolumeOptions → State → Result Status State
unfolding discover_bindings validate insert
provision volume_id options st = do
  found ← discover_bindings volume_id st.ponds.data_of
  bindings ← validate found
  let volume : Volume = record {
    claim = record { bindings = bindings; options = options };
    published_node_ids = [];
    readonly = false;
  }
  ok record st { volumes = insert volume_id volume st.volumes }

-- `get_mut(volume_id).unwrap()`
unfoldable pub unwrap_volume : State → Option Volume → Result Status (Volume × State)
unwrap_volume st none = panic
unwrap_volume st (some volume) = ok (volume, st)

unfoldable pub provision_unless :
    Option Volume → String → VolumeOptions → State → Result Status (Volume × State)
unfolding provision unwrap_volume get
provision_unless (some volume) volume_id options st = ok (volume, st)
provision_unless none volume_id options st =
    provision volume_id options st >>= λ next. unwrap_volume next (get next.volumes volume_id)

-- The volume, and the state that holds it.
unfoldable pub get_volume_or_provision :
    String → VolumeOptions → State → Result Status (Volume × State)
unfolding provision_unless get
get_volume_or_provision volume_id options st =
    provision_unless (get st.volumes volume_id) volume_id options st
