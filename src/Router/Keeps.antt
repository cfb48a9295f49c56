-- ===== src/Router/Keeps.antt =====
-- Handlers that leave a world's view as it is but for the samples of the servers' health.
use vpn_backend.Base.{String, ◌≡◌, refl, ap, ◌∙◌, if_rule, ◌==◌}
use vpn_backend.Action.{Action, pure, ◌>>◌, ignore_error, bind_rule}
use vpn_backend.Models.{Uuid, ServerMetric, nil_uuid}
use vpn_backend.Models.Hooks.{metric_before_create}
use vpn_backend.Database.{Gorm}
use vpn_backend.Database.View.{View, Rows}
use vpn_backend.Database.Laws.{LawfulGorm, set_metrics}
use vpn_backend.Database.Reads.{IsRead, bind-IsRead}
use vpn_backend.Repositories.Servers as ServerRows
use vpn_backend.Services.Servers as Servers
use vpn_backend.Services.Servers.{ServerService, HealthReport, sample_of, metrics_or_zero}
use vpn_backend.Handlers.{Parsers, Request, Response, on_success, with_id}
use vpn_backend.Handlers.Rules.{on_success_rule, with_id_rule}
use vpn_backend.Router.Reads as Reads

-- Nothing has changed but the samples of the servers' health.
abbrev pub SameButMetrics : View → View → Type 0
SameButMetrics v v' = (rows : Rows ServerMetric) × (v' ≡ set_metrics rows v)

pub read-SameButMetrics : {v v' : View} → v' ≡ v → SameButMetrics v v'
read-SameButMetrics {v} e = (v.metrics, e)

pub SameButMetrics-after : {u v v' : View} → v ≡ u → SameButMetrics v v' → SameButMetrics u v'
SameButMetrics-after e (rows, h) = (rows, h ∙ ap (set_metrics rows) e)

module _ {W : Type 0} (view : W → View) where
  abbrev pub Keeps : (W → Response × W) → Type 0
  Keeps k = (w : W) → SameButMetrics (view w) (view (k w).1)

  pub on_success-Keeps :
      {A : Type 0} (m : Action W A) (k : A → W → Response × W)
      → IsRead view m
      → ((a : A) → Keeps (k a))
      → Keeps (on_success m k)
  on_success-Keeps m k reads rest w =
      on_success_rule (λ r. SameButMetrics (view w) (view r.1)) m k w
        (λ a _. SameButMetrics-after (reads w) (rest a _)) (λ _ _. read-SameButMetrics (reads w))

  pub with_id-Keeps :
      (parsers : Parsers) (req : Request) (k : Uuid → W → Response × W)
      → ((id : Uuid) → Keeps (k id))
      → Keeps (with_id parsers req k)
  with_id-Keeps parsers req k rest w =
      with_id_rule (λ r. SameButMetrics (view w) (view r.1)) parsers req k w (λ id _. rest id w)
        (read-SameButMetrics refl)

  answers : {A : Type 0} (f : A → Response) (a : A) → Keeps (λ w. (f a, w))
  answers f a w = read-SameButMetrics refl

  -- A list, a lookup by the identifier in the path, and a read with no argument.
  pub reads-Keeps :
      {A : Type 0} (m : Action W A) (f : A → Response)
      → IsRead view m
      → Keeps (on_success m (λ a w. (f a, w)))
  reads-Keeps m f reads = on_success-Keeps m _ reads (answers f)

  pub lookups-Keeps :
      {A : Type 0} (parsers : Parsers) (req : Request) (m : Uuid → Action W A) (f : A → Response)
      → ((id : Uuid) → IsRead view (m id))
      → Keeps (with_id parsers req (λ id. on_success (m id) (λ a w. (f a, w))))
  lookups-Keeps parsers req m f reads =
      with_id-Keeps parsers req _ λ id. reads-Keeps (m id) f (reads id)

  -- The health of a server: its sample is stored.
  create_metric-Keeps :
      (db : Gorm W) (lawful : LawfulGorm view db) (m : ServerMetric) (w : W)
      → SameButMetrics (view w) (view (ignore_error (ServerRows.create_metric db m) w).1)
  unfolding ignore_error ServerRows.create_metric metric_before_create
  create_metric-Keeps db lawful m w =
      bind_rule (λ r. SameButMetrics (view w) (view r.1)) _ _ w (λ m' _. stored m' _ assigned)
        (λ e _. read-SameButMetrics assigned)
    where
      assigned : view (metric_before_create db.new_uuid m w).1 ≡ view w
      assigned =
          bind-IsRead view _ _
            (if_rule (IsRead view) (m.id == nil_uuid) lawful.new_uuid_view (λ w. refl))
            (λ _ w. refl) w

      stored :
          (m' : ServerMetric) (w' : W)
          → view w' ≡ view w
          → SameButMetrics (view w) (view ((db.metrics.create m' >> pure m') w').1)
      stored m' w' same =
          bind_rule (λ r. SameButMetrics (view w) (view r.1)) (db.metrics.create m') _ w'
            (λ _ made. SameButMetrics-after same (_, (lawful.metrics.create_ok m' w' made).1))
            (λ e failed. read-SameButMetrics (lawful.metrics.create_err m' w' e failed ∙ same))

  module _ (s : ServerService W) (db : LawfulGorm view s.db)
      (status_view : (w : W) → view (s.provider.get_server_status w).1 ≡ view w)
      (system_view : (w : W) → view (s.read_system_metrics w).1 ≡ view w)
      (service_view : (unit : String) (w : W) → view (s.is_service_active unit w).1 ≡ view w) where
    probe-IsRead : IsRead view (Servers.probe s)
    unfolding Servers.probe
    probe-IsRead w = service_view "caddy" _ ∙ system_view _ ∙ status_view w

    -- The report is answered whether or not its sample could be stored.
    pub health-Keeps :
        (id : Uuid) (w : W) → SameButMetrics (view w) (view (Servers.health s id w).1)
    unfolding Servers.health
    health-Keeps id w =
        bind_rule (λ r. SameButMetrics (view w) (view r.1)) (Servers.get s id) _ w
          (λ _ _.
            let found = Reads.servers_get-IsRead view s db id w in
            bind_rule (λ r. SameButMetrics (view w) (view r.1)) (Servers.probe s) _ _
              (λ report _.
                let same = probe-IsRead _ ∙ found in
                bind_rule (λ r. SameButMetrics (view w) (view r.1)) _ _ _
                  (λ _ _.
                    SameButMetrics-after same (create_metric-Keeps s.db db (sample_of id report) _))
                  (λ _ _.
                    SameButMetrics-after same
                      (create_metric-Keeps s.db db (sample_of id report) _)))
              (λ _ _. read-SameButMetrics (probe-IsRead _ ∙ found)))
          (λ _ _. read-SameButMetrics (Reads.servers_get-IsRead view s db id w))
