-- ===== src/Objects/Deployment/Spec/Declared.antt =====
-- The containers of a deployment's specification mount only volumes that it declares.
use mathlib.Core.Path.{subst}
use mathlib.Core.Option.{some-injective}
use grafana_operator.Common.{String, ◌≡◌, Option, some, List, [], ◌∷◌, Assoc, map, bind-inversion}
use grafana_operator.Config.ConfigValue.{Values}
use grafana_operator.Objects.Resource.{Kubernetes, Volume, Container, Grafana}
use grafana_operator.Objects.Deployment.Volumes.{extra_mounts, get_volumes}
use grafana_operator.Objects.Deployment.Volumes.Mounted.{
  AreMounted, plugin_volume_name-is_declared, get_volume_mounts-AreMounted,
  get_extra_container_volume_mounts-AreMounted,
}
use grafana_operator.Objects.Deployment.Containers.{
  grafana_image_of, init_image_of, grafana_container, with_mounts, get_containers, init_container,
  get_init_containers,
}
use grafana_operator.Objects.Deployment.Spec.{DeploymentSpec, get_deployment_spec}

module _ (k : Kubernetes) where
  abbrev pub AllMounted : List (Volume k) → List (Container k) → Type 0
  AllMounted volumes [] = Unit
  AllMounted volumes (c ∷ l) = AreMounted k volumes c.volume_mounts × AllMounted volumes l

  with_mounts-AllMounted :
      (cr : Grafana k) (l : List (Container k))
      → AllMounted (get_volumes k cr) l
      → AllMounted (get_volumes k cr) (map (with_mounts k cr) l)
  with_mounts-AllMounted cr [] h = tt
  with_mounts-AllMounted cr (c ∷ l) (e, h) = (
    get_extra_container_volume_mounts-AreMounted k cr c.volume_mounts e,
    with_mounts-AllMounted cr l h,
  )

  get_init_containers-AllMounted :
      (values : Values) (cr : Grafana k) (plugins : String) (l : List (Container k))
      → get_init_containers k values cr plugins ≡ some l
      → AreMounted k (get_volumes k cr) (extra_mounts k cr)
      → AllMounted (get_volumes k cr) l
  unfolding get_init_containers
  get_init_containers-AllMounted values cr plugins l e h =
      let (image, _, p) =
        bind-inversion (init_image_of k values cr)
          (λ image. some (init_container k cr plugins image ∷ [])) l e in
      subst (λ o. AllMounted (get_volumes k cr) o) {x = init_container k cr plugins image ∷ []}
        (some-injective _ _ p) ((plugin_volume_name-is_declared k cr h, tt), tt)

  get_containers-AllMounted :
      (values : Values) (cr : Grafana k) (config_hash ds_hash : String) (l : List (Container k))
      → get_containers k values cr config_hash ds_hash ≡ some l
      → AreMounted k (get_volumes k cr) (extra_mounts k cr)
      → AllMounted (get_volumes k cr) cr.containers
      → AllMounted (get_volumes k cr) l
  unfolding get_containers
  get_containers-AllMounted values cr config_hash ds_hash l e h g =
      let (image, _, p) =
        bind-inversion (grafana_image_of k values cr)
          (λ image. some (
            grafana_container k cr config_hash ds_hash image
            ∷ map (with_mounts k cr) cr.containers))
          l e in
      subst (λ o. AllMounted (get_volumes k cr) o)
        {x = grafana_container k cr config_hash ds_hash image
          ∷ map (with_mounts k cr) cr.containers}
        (some-injective _ _ p)
        (get_volume_mounts-AreMounted k cr h, with_mounts-AllMounted cr cr.containers g)

  -- If a specification of a deployment is made, each extra mount of the resource names a volume of the
  -- pod, and so does each mount of each extra container, then each mount of each of its containers
  -- names one of the volumes that it declares: that of the plugins in the init container, whichever
  -- extra mount has taken its place, those of Grafana's container, and those of the extra containers
  -- with what is added for the secrets and the config maps.
  pub get_deployment_spec-AllMounted :
      (values : Values) (cr : Grafana k) (annotations : Option (Assoc String))
      (config_hash plugins ds_hash : String) (spec : DeploymentSpec k)
      → get_deployment_spec k values cr annotations config_hash plugins ds_hash ≡ some spec
      → AreMounted k (get_volumes k cr) (extra_mounts k cr)
      → AllMounted (get_volumes k cr) cr.containers
      → AllMounted spec.template.pod_spec.volumes spec.template.pod_spec.init_containers
        × AllMounted spec.template.pod_spec.volumes spec.template.pod_spec.containers
  unfolding get_deployment_spec
  get_deployment_spec-AllMounted values cr annotations config_hash plugins ds_hash spec e h g =
      let (init, p, e') = bind-inversion _ _ spec e in
      let (containers, q, e'') = bind-inversion _ _ spec e' in
      subst
        (λ s.
          AllMounted s.template.pod_spec.volumes s.template.pod_spec.init_containers
          × AllMounted s.template.pod_spec.volumes s.template.pod_spec.containers)
        (some-injective _ _ e'')
        (
          get_init_containers-AllMounted values cr plugins init p h,
          get_containers-AllMounted values cr config_hash ds_hash containers q h g,
        )
