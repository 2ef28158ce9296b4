-- ===== src/Examples/Cluster/Healthy.antt =====
-- That no call of the cluster in memory fails.
use mathlib.Core.Option.{get_or}
use universal_crossplane.Base.{◌≡◌, refl, ap, ◌∙◌, inl, inr, Option-cases, Option, ok}
use universal_crossplane.Controllers.Kube.{NamespacedName, Secret, key_of}
use universal_crossplane.Controllers.TlsSecrets.Healthy.{IsHealthy}
use universal_crossplane.Examples.Cluster.{
  Secrets, same, same_refl, named, named_key, found_of, not_found, create, drawn_works, env,
  cluster_store,
}

kept-key :
    (n : NamespacedName) (o : Option Secret) (s : Secret)
    → key_of s ≡ n
    → key_of (get_or (named n o) s) ≡ n
kept-key n o s h = elim (Option-cases (named n o)) [
  | inl e ↦ rw e h
  | inr (t, e) ↦ rw e (named_key n o e)
]

create_works :
    (n : NamespacedName) (t : Secret) (w : Secrets) → key_of t ≡ n → (create n t w).0 ≡ ok tt
create_works n t w h = rw (ap (λ k. same k n) h ∙ same_refl n)

pub cluster-IsHealthy : IsHealthy env cluster_store
cluster-IsHealthy = record {
  get-found = λ n w s h. ap found_of h;
  get-none = λ n w h. (not_found, ap found_of h, refl);
  update-written = λ s t w h. refl;
  create-written = λ s f w kept.
      create_works (key_of s) _ w (kept _ ∙ kept-key (key_of s) (w (key_of s)) s refl);
  key-made = λ n w. ("k", refl);
  serial-made = λ n w h. drawn_works n h;
  self-signed = λ c k w. (_, refl);
  signed = λ t c p k w. (_, _, refl, refl);
  marshalled = λ k. (_, refl);
}
