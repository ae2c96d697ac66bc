-- ===== src/DataPond/Controller/Run.antt =====
-- Any sequence of requests to the controller.
use eecs_k8s.Prelude.{String, List, [], ◌∷◌}
use eecs_k8s.DataPond.Controller.{Cluster, System}
use eecs_k8s.DataPond.Controller.Handler.{
  Driver, PublishRequest, controller_publish_volume, controller_unpublish_volume, delete_volume,
}
use eecs_k8s.DataPond.Controller.Create.{CreateRequest, create_volume}

pub data Request : Type 0 where
  create : CreateRequest → Request
  delete : (volume_id : String) → Request
  publish : PublishRequest → Request
  unpublish : (volume_id node_id : String) → Request

-- The state after a request, whatever it answers.
unfoldable pub handle : Driver → Cluster → Request → System → System
unfolding create_volume delete_volume controller_publish_volume controller_unpublish_volume
handle driver cluster (create r) s = (create_volume cluster driver r s).1
handle driver cluster (delete volume_id) s = (delete_volume cluster volume_id s).1
handle driver cluster (publish r) s = (controller_publish_volume cluster driver r s).1
handle driver cluster (unpublish volume_id node_id) s =
    (controller_unpublish_volume cluster volume_id node_id s).1

-- Each request meets the cluster in a state of its own.
unfoldable pub run : Driver → List (Cluster × Request) → System → System
unfolding handle
run driver [] s = s
run driver ((cluster, request) ∷ more) s = run driver more (handle driver cluster request s)
