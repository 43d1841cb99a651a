-- ===== src/Oauth/PermissionRules/Order.antt =====
-- The decision, and the order and choice of the rules.
-- About src/oauth/permission-rules.ts.
use keyforge.Prelude.{◌≡◌, refl, ap, ◌≢◌, ◌↔◌, List, arith, IsMember, string_eq, option_eq, nat_eq}
use keyforge.Oauth.PermissionRules.{
  EffectiveRule, Context, Stage, Decision, allowed, denied, no_match, allow, deny,
  resolve_permission_rules,
}
use keyforge.Oauth.PermissionRules.Resolve.{
  IsDecision, Counts, IsDecision-iff, resolve_permission_rules-IsDecision,
}

allow-ne-deny : (r : EffectiveRule) → r.effect ≡ allow → r.effect ≢ deny
allow-ne-deny r a d = cc

IsDecision-unique :
    (P : EffectiveRule → Type 0) (d d' : Decision) → IsDecision P d → IsDecision P d' → d ≡ d'
IsDecision-unique P no_match no_match h k = refl
IsDecision-unique P no_match (allowed q) h ((r, a, _), _, _) = absurd (h r a)
IsDecision-unique P no_match (denied q) h ((r, a, _, _), _) = absurd (h r a)
IsDecision-unique P (allowed p) no_match ((r, a, _), _, _) k = absurd (k r a)
IsDecision-unique P (denied p) no_match ((r, a, _, _), _) k = absurd (k r a)
IsDecision-unique P (allowed p) (allowed q) ((r, a, e), l, _) ((s, b, f), m, _) =
    ap allowed (omega (arith, l s b, m r a))
IsDecision-unique P (denied p) (denied q) ((r, a, e, _), l) ((s, b, f, _), m) =
    ap denied (omega (arith, l s b, m r a))
IsDecision-unique P (allowed p) (denied q) ((r, a, e), l, only) ((s, b, f, d), m) =
    absurd (allow-ne-deny s (only s b (omega (arith, l s b, m r a))) d)
IsDecision-unique P (denied p) (allowed q) ((s, b, f, d), m) ((r, a, e), l, only) =
    absurd (allow-ne-deny s (only s b (omega (arith, l s b, m r a))) d)

-- Two lists with the same rules, in whatever order and however often, lead to the same decision.
pub resolve_permission_rules_order :
    (rules rules' : List EffectiveRule) (context : Context) (stage : Stage)
    → ((rule : EffectiveRule) → IsMember rule rules ↔ IsMember rule rules')
    → resolve_permission_rules rules context stage ≡ resolve_permission_rules rules' context stage
resolve_permission_rules_order rules rules' context stage same =
    IsDecision-unique (Counts rules' context stage) _ _
      (IsDecision-iff (Counts rules context stage) (Counts rules' context stage) _
        (λ r c. ((same r).0 c.0, c.1)) (λ r c. ((same r).1 c.0, c.1))
        (resolve_permission_rules-IsDecision rules context stage))
      (resolve_permission_rules-IsDecision rules' context stage)
