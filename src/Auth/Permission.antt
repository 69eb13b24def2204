-- ===== src/Auth/Permission.antt =====
-- What a token may write.
use rs_detritus.Common.{
  Str, Bool, true, false, ◌++◌, ◌&&◌, ◌==◌, nat_eq, list_eq, eq_iff, ◌≡◌, ◌↔◌, refl, arith,
  starts_with_sound, starts_with-append,
}
use rs_detritus.Storage.{SourceKey, canonical}
use rs_detritus.Auth.{TokenContext, permits}

and_true : (a b : Bool) → (a && b) ≡ true → (a ≡ true) × (b ≡ true)
and_true true b h = (refl, h)
and_true false b h = absurd (ground arith)

-- A token permits a source exactly when the source is of the token's project and its canonical form
-- begins with the token's prefix.
pub permits_iff :
    (t : TokenContext) (s : SourceKey)
    → (permits t s ≡ true)
      ↔ ((s.project ≡ t.project) × ((rest : Str) × (canonical s ≡ t.source_prefix ++ rest)))
unfolding permits
permits_iff t s = (
  λ h.
      let (same, begins) = and_true (s.project == t.project) _ h in
      ((eq_iff s.project t.project).0 same, starts_with_sound t.source_prefix (canonical s) begins),
  λ (same, (rest, e)).
      rw e (ground (arith, eq_iff s.project t.project, starts_with-append t.source_prefix rest)),
)
