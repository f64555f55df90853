-- ===== src/Cluster/State.antt =====
-- `ClusterState` of controllers/common/clusterState.go: the objects that are there when a reconciliation
-- starts.
use grafana_operator.Common.{String, Bool, false, Option, none, some, List, is_some, if◌then◌else◌}
use grafana_operator.Common.Run.{Result, ok, err, or_err}
use grafana_operator.Config.ConfigValue.{Values, get_config_bool}
use grafana_operator.Cluster.Service.{Service, get_service_name}
use grafana_operator.Cluster.ConfigMap.{ConfigMap}
use grafana_operator.Objects.Resource.{Kubernetes, Grafana}
use grafana_operator.Objects.Deployment.Spec.{Deployment}
use grafana_operator.Objects.Ingress.{Published, IngressSpec, RouteSpec}
use grafana_operator.Objects.Accounts.{ServiceAccount, Secret}
use grafana_operator.Objects.Storage.{ClaimSpec}

-- What a read of an object gives.
pub data Answer (E A : Type 0) : Type 0 where
  found : A → Answer E A
  not_found : Answer E A
  failed : E → Answer E A

-- A point at which the load balancer of an ingress is reached.
pub record LoadBalancerIngress : Type 0 where
  pub ip : String
  pub hostname : String

-- An ingress, with the status that the cluster gives it.
pub record LiveIngress : Type 0 where
  pub ingress : Published IngressSpec
  pub load_balancer : List LoadBalancerIngress

-- An object that is not there is no error.
abbrev pub if_found : {E A : Type 0} → Answer E A → Result E (Option A)
if_found (found a) = ok (some a)
if_found not_found = ok none
if_found (failed e) = err e

module _ (k : Kubernetes) where
  pub record ClusterState : Type 0 where
    pub grafana_service : Option Service
    pub grafana_data_pvc : Option (Published ClaimSpec)
    pub grafana_service_account : Option ServiceAccount
    pub grafana_config : Option ConfigMap
    pub grafana_route : Option (Published RouteSpec)
    pub grafana_ingress : Option LiveIngress
    pub grafana_deployment : Option (Deployment k)
    pub grafana_datasource_config : Option ConfigMap
    pub admin_secret : Option Secret

  -- `client.Get` for each kind of object, given a namespace and a name.
  pub record Reader (E : Type 0) : Type 0 where
    pub get_service : (namespace name : String) → Answer E Service
    pub get_claim : (namespace name : String) → Answer E (Published ClaimSpec)
    pub get_service_account : (namespace name : String) → Answer E ServiceAccount
    pub get_config_map : (namespace name : String) → Answer E ConfigMap
    pub get_route : (namespace name : String) → Answer E (Published RouteSpec)
    pub get_ingress : (namespace name : String) → Answer E LiveIngress
    pub get_deployment : (namespace name : String) → Answer E (Deployment k)
    pub get_secret : (namespace name : String) → Answer E Secret

  module _ {E : Type 0} (reader : Reader E) (cr : Grafana k) where
    abbrev namespace : String
    namespace = cr.served.namespace

    abbrev read_grafana_data_pvc : Result E (Option (Published ClaimSpec))
    read_grafana_data_pvc =
        if is_some cr.data_storage
        then if_found (reader.get_claim namespace "grafana-pvc")
        else ok none

    abbrev read_grafana_route : (is_openshift : Bool) → Result E (Option (Published RouteSpec))
    read_grafana_route is_openshift =
        if is_openshift then if_found (reader.get_route namespace "grafana-route") else ok none

    abbrev read_grafana_ingress : (is_openshift : Bool) → Result E (Option LiveIngress)
    read_grafana_ingress is_openshift =
        if is_openshift then ok none else if_found (reader.get_ingress namespace "grafana-ingress")

    -- The objects are read one after the other, up to the first error.
    unfoldable pub read_objects : (is_openshift : Bool) → Result E ClusterState
    unfolding get_service_name
    read_objects is_openshift =
        or_err (if_found (reader.get_service namespace (get_service_name cr.served))) λ service.
          or_err read_grafana_data_pvc λ claim.
            or_err (if_found (reader.get_service_account namespace "grafana-serviceaccount"))
              λ account.
                or_err (if_found (reader.get_config_map namespace "grafana-config")) λ config.
                  or_err (if_found (reader.get_config_map namespace "grafana-datasources"))
                    λ datasources.
                      or_err (if_found (reader.get_deployment namespace "grafana-deployment"))
                        λ deployment.
                          or_err
                            (if_found (reader.get_secret namespace "grafana-admin-credentials"))
                            λ secret. or_err (read_grafana_route is_openshift) λ route.
                              or_err (read_grafana_ingress is_openshift) λ ingress. ok record {
                                grafana_service = service;
                                grafana_data_pvc = claim;
                                grafana_service_account = account;
                                grafana_config = config;
                                grafana_route = route;
                                grafana_ingress = ingress;
                                grafana_deployment = deployment;
                                grafana_datasource_config = datasources;
                                admin_secret = secret;
                              }

    abbrev with_mode : Option Bool → Option (Result E ClusterState)
    with_mode none = none
    with_mode (some is_openshift) = some (read_objects is_openshift)

    -- `none` is a panic: the mode is not a flag.
    unfoldable pub read : Values → Option (Result E ClusterState)
    unfolding read_objects get_config_bool
    read values = with_mode (get_config_bool "mode.openshift" false values)
