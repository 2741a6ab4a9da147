-- ===== src/Kubernetes/Backend/Laws.antt =====
-- The name of the ConfigMap is asked for once.
use mimi_agent.Base.{◌≡◌, refl, not, ◌||◌, Option, none, some, inl, inr, Bool-cases}
use mimi_agent.Base.Exec.{ok, pure, raise, gets, ◌>>=◌, >>=-eq-ok, modify}
use mimi_agent.System.{System}
use mimi_agent.System.JsonValue.{Value, truthy}
use mimi_agent.Kubernetes.ApiClient.{Client, given}
use mimi_agent.Kubernetes.RunnerJob.{KubernetesRunnerOptions}
use mimi_agent.Kubernetes.Backend.{cache_name, ask_pod, cached_or_asked, resolve_configmap_name}

module _ (x : System) (options : KubernetesRunnerOptions) where
  cache_name_lem :
      (found name : Value) (c t : Client)
      → cache_name x options found c ≡ (ok name, t)
      → t.configmap_name_cache ≡ some name
  unfolding cache_name ◌>>=◌ modify pure raise
  cache_name_lem found name c t h = elim (Bool-cases (truthy found)) [
    | inl named ↦ cc (rw named at h)
    | inr unnamed ↦ cc (rw unnamed at h)
  ]

  ask_pod_lem :
      (name : Value) (c t : Client)
      → ask_pod x options c ≡ (ok name, t)
      → t.configmap_name_cache ≡ some name
  unfolding ask_pod
  ask_pod_lem name c t h =
      let (pod, asked, h1) = >>=-eq-ok _ _ c h in
      let (found, read, h2) = >>=-eq-ok _ _ _ h1 in cache_name_lem found name _ t h2

  cached_or_asked_lem :
      (cache : Option Value) (name : Value) (c t : Client)
      → c.configmap_name_cache ≡ cache
      → cached_or_asked x options cache c ≡ (ok name, t)
      → t.configmap_name_cache ≡ some name
  unfolding cached_or_asked pure raise
  cached_or_asked_lem (some kept) name c t e h = cc (e, h)
  cached_or_asked_lem none name c t e h =
      elim (Bool-cases
        (not (given options.self_pod_name) || not (given options.self_pod_namespace))) [
          | inl unset ↦ cc (rw unset at h)
          | inr known ↦ ask_pod_lem name c t (rw known at h)
        ]

  -- Once the name of the ConfigMap is resolved, it is resolved to the same name again, with no request and
  -- no change of the state.
  pub resolve_configmap_name_again :
      (c t : Client) (name : Value)
      → resolve_configmap_name x options c ≡ (ok name, t)
      → resolve_configmap_name x options t ≡ (ok name, t)
  unfolding resolve_configmap_name cached_or_asked gets ◌>>=◌ pure
  resolve_configmap_name_again c t name h = elim (Bool-cases (given options.configmap_name)) [
    | inl configured ↦ rw configured (cc (rw configured at h))
    | inr unset ↦
        let kept = cached_or_asked_lem c.configmap_name_cache name c t refl (rw unset at h) in
        rw (unset, kept)
  ]
