-- ===== src/Cluster/Service/Laws.antt =====
-- What the service of Grafana always has.
use grafana_operator.Common.{
  String, eq_iff, ◌≡◌, ◌≢◌, refl, Option, none, some, List, [], ◌∷◌, ℤ, eqb_ℤ_iff, Assoc,
  HasDistinctKeys, or_other, lookup, insert, lookup-insert, to_int32, arith, Bool-cases, inl, inr,
}
use grafana_operator.Cluster.Service.{
  ServicePort, GrafanaService, Grafana, Service, merge_annotations, get_service_ports,
  get_grafana_port, http_port_name, default_port, reassign, is_reserved, additional,
  requested_ports, service_ports, current_ports,
}

-- No port has the name or the number of the default port.
abbrev pub AreOther : ℤ → List ServicePort → Type 0
AreOther port [] = Unit
AreOther port (p ∷ l) = (p.name ≢ http_port_name) × (p.port ≢ port) × AreOther port l

additional-AreOther : (port : ℤ) (l : List ServicePort) → AreOther port (additional port l)
unfolding additional
additional-AreOther port [] = tt
additional-AreOther port (p ∷ l) = elim (Bool-cases (is_reserved port p)) [
  | inl e ↦ rw e (additional-AreOther port l)
  | inr e ↦ rw e (
    ground (arith, eq_iff p.name http_port_name),
    λ same. ground (arith, eqb_ℤ_iff p.port port),
    additional-AreOther port l,
  )
]

reassign_lem :
    (l : List ServicePort) (d : ServicePort)
    → ((reassign l d).name ≡ d.name) × ((reassign l d).port ≡ d.port)
unfolding reassign
reassign_lem [] d = (refl, refl)
reassign_lem (p ∷ l) d =
    ground (arith, reassign_lem l d, reassign_lem l (record d { node_port = p.node_port }))

requested_ports-AreOther :
    (port : ℤ) (o : Option (List ServicePort)) → AreOther port (requested_ports port o)
requested_ports-AreOther port none = tt
requested_ports-AreOther port (some l) = additional-AreOther port l

service_ports-AreOther :
    (port : ℤ) (o : Option GrafanaService) (current : Option Service)
    → (first : ServicePort) × (others : List ServicePort) × (service_ports port o current
        ≡ first ∷ others)
      × (first.name ≡ http_port_name)
      × (first.port ≡ port)
      × AreOther port others
service_ports-AreOther port none current = (default_port port, [], refl, refl, refl, tt)
service_ports-AreOther port (some service) current =
    let same = reassign_lem (current_ports current) (default_port port) in
    (
      reassign (current_ports current) (default_port port),
      requested_ports port service.ports,
      refl,
      same.0,
      same.1,
      requested_ports-AreOther port service.ports,
    )

-- The service has first a port with the name `grafana` and the configured number, cut to 32 bits,
-- and no other port of that name or number, whatever ports the resource asks for.
pub get_service_ports-AreOther :
    (cr : Grafana) (current : Option Service)
    → (first : ServicePort) × (others : List ServicePort) × (get_service_ports cr current
        ≡ first ∷ others)
      × (first.name ≡ http_port_name)
      × (first.port ≡ to_int32 (get_grafana_port cr))
      × AreOther (to_int32 (get_grafana_port cr)) others
unfolding get_service_ports
get_service_ports-AreOther cr current =
    service_ports-AreOther (to_int32 (get_grafana_port cr)) cr.service current

-- After `MergeAnnotations` of annotations that hold no key twice into others, a key has the value
-- that is requested for it, or its old one if none is.
pub lookup-merge_annotations :
    (requested existing : Assoc String) (k : String)
    → HasDistinctKeys requested
    → lookup k (merge_annotations requested (some existing))
      ≡ or_other (lookup k requested) (lookup k existing)
unfolding merge_annotations lookup
lookup-merge_annotations [] existing k d = refl
lookup-merge_annotations ((key, v) ∷ l) existing k d = ground (
  arith,
  lookup-merge_annotations l (insert key v existing) k,
  lookup-insert key k v existing,
  eq_iff key k,
)
