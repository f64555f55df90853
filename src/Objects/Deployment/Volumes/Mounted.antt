-- ===== src/Objects/Deployment/Volumes/Mounted.antt =====
-- Which volumes the mounts name. A pod with a mount of a volume that it does not declare is refused by
-- the cluster.
use grafana_operator.Common.{
  String, ◌==◌, eq_refl, ◌≡◌, refl, Bool, true, false, ◌||◌, List, [], ◌∷◌, ◌++◌, is_some,
  Bool-cases, inl, inr, arith,
}
use grafana_operator.Objects.Resource.{Kubernetes, VolumeMount, Volume, secret, config_map, Grafana}
use grafana_operator.Objects.Deployment.Volumes.{
  plugins_path, secret_name, config_map_name, mounts_plugins, secret_mounts, config_map_mounts,
  is_mounted, append_if_empty, append_all_if_empty, secret_volumes, config_map_volumes,
  extra_mounts, extra_volumes, plugin_mounts, plugin_volumes, provisioning_mounts, fixed_volumes,
  volume, get_volumes, get_volume_mounts, get_extra_container_volume_mounts,
}
use grafana_operator.Objects.Deployment.Containers.{plugin_volume_name}

module _ (k : Kubernetes) where
  unfoldable pub has_volume : String → List (Volume k) → Bool
  has_volume name [] = false
  has_volume name (v ∷ l) = v.name == name || has_volume name l

  -- Each of the mounts names one of the volumes.
  abbrev pub AreMounted : List (Volume k) → List VolumeMount → Type 0
  AreMounted volumes [] = Unit
  AreMounted volumes (m ∷ l) = (has_volume m.name volumes ≡ true) × AreMounted volumes l

  has_volume-append_right :
      (name : String) (volumes more : List (Volume k))
      → has_volume name more ≡ true
      → has_volume name (volumes ++ more) ≡ true
  unfolding has_volume
  has_volume-append_right name [] more h = h
  has_volume-append_right name (v ∷ l) more h =
      ground (arith, has_volume-append_right name l more h)

  has_volume-append_left :
      (name : String) (volumes more : List (Volume k))
      → has_volume name volumes ≡ true
      → has_volume name (volumes ++ more) ≡ true
  unfolding has_volume
  has_volume-append_left name [] more h = absurd cc
  has_volume-append_left name (v ∷ l) more h = elim (Bool-cases (v.name == name)) [
    | inl e ↦ rw e refl
    | inr e ↦ ground (arith, has_volume-append_left name l more (ground arith))
  ]

  AreMounted-append :
      (volumes : List (Volume k)) (l more : List VolumeMount)
      → AreMounted volumes l
      → AreMounted volumes more
      → AreMounted volumes (l ++ more)
  AreMounted-append volumes [] more h g = g
  AreMounted-append volumes (m ∷ l) more (e, h) g = (e, AreMounted-append volumes l more h g)

  AreMounted-right :
      (volumes more : List (Volume k)) (l : List VolumeMount)
      → AreMounted more l
      → AreMounted (volumes ++ more) l
  AreMounted-right volumes more [] h = h
  AreMounted-right volumes more (m ∷ l) (e, h) =
      (has_volume-append_right m.name volumes more e, AreMounted-right volumes more l h)

  AreMounted-left :
      (volumes more : List (Volume k)) (l : List VolumeMount)
      → AreMounted volumes l
      → AreMounted (volumes ++ more) l
  AreMounted-left volumes more [] h = h
  AreMounted-left volumes more (m ∷ l) (e, h) =
      (has_volume-append_left m.name volumes more e, AreMounted-left volumes more l h)

  secret_mounts-AreMounted :
      (names : List String) → AreMounted (secret_volumes k names) (secret_mounts names)
  unfolding secret_mounts secret_volumes has_volume
  secret_mounts-AreMounted [] = tt
  secret_mounts-AreMounted (name ∷ l) = (
    rw (eq_refl (secret_name name)) refl,
    AreMounted-right (volume k (secret_name name) (secret name true) ∷ []) (secret_volumes k l)
        (secret_mounts l) (secret_mounts-AreMounted l),
  )

  config_map_mounts-AreMounted :
      (names : List String) → AreMounted (config_map_volumes k names) (config_map_mounts names)
  unfolding config_map_mounts config_map_volumes has_volume
  config_map_mounts-AreMounted [] = tt
  config_map_mounts-AreMounted (name ∷ l) = (
    rw (eq_refl (config_map_name name)) refl,
    AreMounted-right (volume k (config_map_name name) (config_map name) ∷ [])
        (config_map_volumes k l) (config_map_mounts l) (config_map_mounts-AreMounted l),
  )

  plugin_volume_name-kept :
      (volumes : List (Volume k)) (items : List VolumeMount) (name : String)
      → has_volume name volumes ≡ true
      → AreMounted volumes items
      → has_volume (plugin_volume_name name items) volumes ≡ true
  unfolding plugin_volume_name
  plugin_volume_name-kept volumes [] name e h = e
  plugin_volume_name-kept volumes (item ∷ items) name e (g, h) =
      plugin_volume_name-kept volumes items _ (ground (arith, e, g)) h

  plugin_volume_name-found :
      (volumes : List (Volume k)) (name : String) (items : List VolumeMount)
      → mounts_plugins items ≡ true
      → AreMounted volumes items
      → has_volume (plugin_volume_name name items) volumes ≡ true
  unfolding plugin_volume_name mounts_plugins
  plugin_volume_name-found volumes name [] p h = absurd cc
  plugin_volume_name-found volumes name (item ∷ items) p (g, h) =
      elim (Bool-cases (item.mount_path == plugins_path)) [
        | inl e ↦ rw e (plugin_volume_name-kept volumes items item.name g h)
        | inr e ↦ rw e (plugin_volume_name-found volumes name items (ground arith) h)
      ]

  -- The volume of the plugins is declared whether or not an extra mount replaces it.
  pub plugin_volume_name-is_declared :
      (cr : Grafana k)
      → AreMounted (get_volumes k cr) (extra_mounts k cr)
      → has_volume (plugin_volume_name "grafana-plugins" (extra_mounts k cr)) (get_volumes k cr)
        ≡ true
  unfolding get_volumes has_volume
  plugin_volume_name-is_declared cr h = elim (Bool-cases (mounts_plugins (extra_mounts k cr))) [
    | inl e ↦ plugin_volume_name-found (get_volumes k cr) "grafana-plugins" (extra_mounts k cr) e h
    | inr e ↦
        plugin_volume_name-kept (get_volumes k cr) (extra_mounts k cr) "grafana-plugins"
          (has_volume-append_right "grafana-plugins" (extra_volumes k cr) _ (rw e refl)) h
  ]

  -- What is mounted from the last volumes of the list.
  tail-AreMounted :
      (cr : Grafana k) (l : List VolumeMount)
      → AreMounted (secret_volumes k cr.secrets ++ config_map_volumes k cr.config_maps) l
      → AreMounted (get_volumes k cr) l
  unfolding get_volumes
  tail-AreMounted cr l h = AreMounted-right (fixed_volumes k (is_some cr.data_storage)) _ l (
      AreMounted-right (extra_volumes k cr) _ l (
        AreMounted-right (plugin_volumes k (mounts_plugins (extra_mounts k cr))) _ l (
          AreMounted-right (volume k "grafana-datasources" (config_map "grafana-datasources") ∷ [])
            _ l h)))

  secrets-AreMounted : (cr : Grafana k) → AreMounted (get_volumes k cr) (secret_mounts cr.secrets)
  secrets-AreMounted cr = tail-AreMounted cr (secret_mounts cr.secrets) (
      AreMounted-left (secret_volumes k cr.secrets) (config_map_volumes k cr.config_maps)
        (secret_mounts cr.secrets) (secret_mounts-AreMounted cr.secrets))

  config_maps-AreMounted :
      (cr : Grafana k) → AreMounted (get_volumes k cr) (config_map_mounts cr.config_maps)
  config_maps-AreMounted cr = tail-AreMounted cr (config_map_mounts cr.config_maps) (
      AreMounted-right (secret_volumes k cr.secrets) (config_map_volumes k cr.config_maps)
        (config_map_mounts cr.config_maps) (config_map_mounts-AreMounted cr.config_maps))

  fixed-has_volume :
      (cr : Grafana k)
      → (has_volume "grafana-config" (get_volumes k cr) ≡ true)
        × (has_volume "grafana-data" (get_volumes k cr) ≡ true)
  unfolding get_volumes has_volume
  fixed-has_volume cr = (refl, refl)

  datasources-has_volume :
      (cr : Grafana k) → has_volume "grafana-datasources" (get_volumes k cr) ≡ true
  unfolding get_volumes has_volume
  datasources-has_volume cr = has_volume-append_right "grafana-datasources" (extra_volumes k cr) _ (
      has_volume-append_right "grafana-datasources"
        (plugin_volumes k (mounts_plugins (extra_mounts k cr))) _ refl)

  provisioning_mounts-AreMounted :
      (cr : Grafana k) → AreMounted (get_volumes k cr) provisioning_mounts
  unfolding get_volumes has_volume
  provisioning_mounts-AreMounted cr =
      (refl, (refl, (refl, (refl, (datasources-has_volume cr, tt)))))

  plugin_mounts-AreMounted :
      (cr : Grafana k)
      → AreMounted (get_volumes k cr) (plugin_mounts k (mounts_plugins (extra_mounts k cr)))
  unfolding get_volumes has_volume
  plugin_mounts-AreMounted cr = elim (Bool-cases (mounts_plugins (extra_mounts k cr))) [
    | inl e ↦ rw e tt
    | inr e ↦ rw e (has_volume-append_right "grafana-plugins" (extra_volumes k cr) _ (refl), tt)
  ]

  pub get_volume_mounts-AreMounted :
      (cr : Grafana k)
      → AreMounted (get_volumes k cr) (extra_mounts k cr)
      → AreMounted (get_volumes k cr) (get_volume_mounts k cr)
  unfolding get_volume_mounts
  get_volume_mounts-AreMounted cr h =
      let v = get_volumes k cr in
      (
        (fixed-has_volume cr).0,
        (
          (fixed-has_volume cr).1,
          AreMounted-append v (extra_mounts k cr) _ h (
              AreMounted-append v (plugin_mounts k (mounts_plugins (extra_mounts k cr))) _
                (plugin_mounts-AreMounted cr)
                (AreMounted-append v provisioning_mounts _ (provisioning_mounts-AreMounted cr) (
                  AreMounted-append v (secret_mounts cr.secrets) (config_map_mounts cr.config_maps)
                    (secrets-AreMounted cr) (config_maps-AreMounted cr)))),
        ),
      )

  append_if_empty-AreMounted :
      (volumes : List (Volume k)) (mounts : List VolumeMount) (m : VolumeMount)
      → AreMounted volumes mounts
      → has_volume m.name volumes ≡ true
      → AreMounted volumes (append_if_empty mounts m)
  unfolding append_if_empty
  append_if_empty-AreMounted volumes mounts m h e = elim (Bool-cases (is_mounted m mounts)) [
    | inl p ↦ rw p h
    | inr p ↦ rw p (AreMounted-append volumes mounts (m ∷ []) h (e, tt))
  ]

  append_all_if_empty-AreMounted :
      (volumes : List (Volume k)) (l mounts : List VolumeMount)
      → AreMounted volumes mounts
      → AreMounted volumes l
      → AreMounted volumes (append_all_if_empty mounts l)
  unfolding append_all_if_empty
  append_all_if_empty-AreMounted volumes [] mounts h g = h
  append_all_if_empty-AreMounted volumes (m ∷ l) mounts h (e, g) =
      append_all_if_empty-AreMounted volumes l (append_if_empty mounts m)
        (append_if_empty-AreMounted volumes mounts m h e) g

  pub get_extra_container_volume_mounts-AreMounted :
      (cr : Grafana k) (mounts : List VolumeMount)
      → AreMounted (get_volumes k cr) mounts
      → AreMounted (get_volumes k cr) (get_extra_container_volume_mounts k cr mounts)
  unfolding get_extra_container_volume_mounts
  get_extra_container_volume_mounts-AreMounted cr mounts h =
      let v = get_volumes k cr in
      append_all_if_empty-AreMounted v (config_map_mounts cr.config_maps) _
        (append_all_if_empty-AreMounted v (secret_mounts cr.secrets) mounts h
          (secrets-AreMounted cr))
        (config_maps-AreMounted cr)
