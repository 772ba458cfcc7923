-- ===== src/Web/Access.antt =====
-- The check of credentials of pkg/web/web.go.
use envoy_control_plane.Prelude.{
  String, Bool, true, false, Option, none, some, eq_iff, eq_refl, ap, sym, ◌∙◌, Bool-cases, inl,
  inr, ◌≡◌, ◌≢◌, ◌↔◌, ◌⊎◌, refl, arith,
}
use envoy_control_plane.Prelude.Texts.{has_prefix}
use envoy_control_plane.Config.{Settings}
use envoy_control_plane.Web.{Request, admin_prefix, is_admin, Reply, unauthorised, served, auth}

pair_eq : {a b s t : String} → a ≡ b → s ≡ t → Path (String × String) (a, s) (b, t)
pair_eq p q = λ i. (p i, q i)

is_admin_eq :
    (c : Settings) (b : Option (String × String))
    → is_admin c b ≡ true
    → b ≡ some (c.web_admin_user, c.web_admin_password)
is_admin_eq c none h = cc
is_admin_eq c (some (user, pass)) h = ap some (
    pair_eq ((eq_iff user c.web_admin_user).0 (ground arith))
      ((eq_iff pass c.web_admin_password).0 (ground arith)))

false_ne : ◌≢◌ {A = Bool} false true
false_ne h = cc

served_ne {ℓ} : {A : Type ℓ} {a : A} → ◌≢◌ {A = Reply A} (served a) unauthorised
served_ne h = cc

is_admin_self : (c : Settings) → is_admin c (some (c.web_admin_user, c.web_admin_password)) ≡ true
is_admin_self c = rw (eq_refl c.web_admin_user, eq_refl c.web_admin_password) refl

-- A request is answered with 401 exactly if its path is under `/api/admin` and its credentials are
-- not those of the settings, and by the wrapped handler exactly if its path is another one or its
-- credentials are those of the settings.
pub auth_iff {ℓ} :
    {A : Type ℓ} (c : Settings) (mux : Request → A) (r : Request)
    → ((auth c mux r ≡ unauthorised) ↔ (
        (has_prefix r.path admin_prefix ≡ true)
        × (r.basic_auth ≢ some (c.web_admin_user, c.web_admin_password))))
      × ((auth c mux r ≡ served (mux r)) ↔ (
          (has_prefix r.path admin_prefix ≡ false)
          ⊎ (r.basic_auth ≡ some (c.web_admin_user, c.web_admin_password))))
unfolding auth
auth_iff {A} c mux r = elim (Bool-cases (has_prefix r.path admin_prefix)) [
  | inr p ↦
      rw p ((λ h. absurd (served_ne h), λ q. absurd (false_ne q.0)), (λ h. inl refl, λ q. refl))
  | inl p ↦ elim (Bool-cases (is_admin c r.basic_auth)) [
    | inl a ↦
        let b : r.basic_auth ≡ some (c.web_admin_user, c.web_admin_password) =
          is_admin_eq c r.basic_auth a in
        rw (p, a) ((λ h. absurd (served_ne h), λ q. absurd (q.1 b)), (λ h. inr b, λ q. refl))
    | inr a ↦
        let n : r.basic_auth ≢ some (c.web_admin_user, c.web_admin_password) =
          λ b. false_ne (sym a ∙ ap (is_admin c) b ∙ is_admin_self c) in
        rw (p, a)
          (
            (λ h. (refl, n), λ q. refl),
            (
              λ h. absurd (served_ne (sym h)),
              λ q. elim q [ inl e ↦ absurd (false_ne (sym e)) | inr b ↦ absurd (n b) ],
            ),
          )
  ]
]
