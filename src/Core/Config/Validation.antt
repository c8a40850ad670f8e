-- ===== src/Core/Config/Validation.antt =====
-- What `validate` accepts.
use vscreen.Base.{
  Bool, List, [], arith, false, ltb, refl, string_eq, true, ◌++◌, ◌<◌, ◌==◌, ◌||◌, ◌↔◌, ◌∷◌, ◌≡◌,
  ◌≢◌, ◌≤◌, nat_eq,
}
use vscreen.Core.Config.{AppConfig, ConfigError, push_if, validate}

abbrev pub IsValid : AppConfig → Type 0
IsValid c =
    (c.server.listen ≢ "")
    × (0 < c.limits.max_instances)
    × (0 < c.limits.max_peers_per_instance)
    × (1 ≤ c.limits.frame_queue_depth)
    × (c.limits.frame_queue_depth ≤ 30)
    × (1 ≤ c.defaults.video.framerate)
    × (c.defaults.video.framerate ≤ 60)
    × (0 < c.defaults.video.bitrate_kbps)

snoc_not_empty : (xs : List ConfigError) (x : ConfigError) → xs ++ x ∷ [] ≢ []
snoc_not_empty [] x e = ground arith
snoc_not_empty (y ∷ xs) x e = ground arith

push_if-empty :
    (failed : Bool) (e : ConfigError) (es : List ConfigError)
    → (push_if failed e es ≡ []) ↔ ((failed ≡ false) × (es ≡ []))
push_if-empty true e es = ((λ h. absurd (snoc_not_empty es e h)), λ h. ground arith)
push_if-empty false e es = ((λ h. (refl, h)), λ h. h.1)

all_pass :
    (b₁ b₂ b₃ b₄ b₅ b₆ : Bool) (e₁ e₂ e₃ e₄ e₅ e₆ : ConfigError)
    → (push_if b₆ e₆
          (push_if b₅ e₅ (push_if b₄ e₄ (push_if b₃ e₃ (push_if b₂ e₂ (push_if b₁ e₁ [])))))
        ≡ [])
      ↔ ((b₁ ≡ false) × (b₂ ≡ false) × (b₃ ≡ false) × (b₄ ≡ false) × (b₅ ≡ false) × (b₆ ≡ false))
all_pass b₁ b₂ b₃ b₄ b₅ b₆ e₁ e₂ e₃ e₄ e₅ e₆ = (
  λ h.
      let h₆ = (push_if-empty b₆ e₆ _).0 h in
      let h₅ = (push_if-empty b₅ e₅ _).0 h₆.1 in
      let h₄ = (push_if-empty b₄ e₄ _).0 h₅.1 in
      let h₃ = (push_if-empty b₃ e₃ _).0 h₄.1 in
      let h₂ = (push_if-empty b₂ e₂ _).0 h₃.1 in
      let h₁ = (push_if-empty b₁ e₁ _).0 h₂.1 in (h₁.0, h₂.0, h₃.0, h₄.0, h₅.0, h₆.0),
  λ p. rw (p.0, p.1, p.2, p.3, p.4, p.5) refl,
)

validate-tests :
    (c : AppConfig)
    → (validate c ≡ []) ↔ (
        (c.server.listen == "" ≡ false)
        × (c.limits.max_instances == 0 ≡ false)
        × (c.limits.max_peers_per_instance == 0 ≡ false)
        × ((ltb c.limits.frame_queue_depth 1 || ltb 30 c.limits.frame_queue_depth) ≡ false)
        × ((c.defaults.video.framerate == 0 || ltb 60 c.defaults.video.framerate) ≡ false)
        × (c.defaults.video.bitrate_kbps == 0 ≡ false))
unfolding validate
validate-tests c = all_pass _ _ _ _ _ _ _ _ _ _ _ _

-- `validate` accepts a configuration just when the listen address is not empty, at least one
-- instance and one peer are allowed, the frame queue holds 1 to 30 frames, the frame rate is 1 to
-- 60, and the bit rate is not 0.
validate-IsValid : (c : AppConfig) → (validate c ≡ []) ↔ IsValid c
validate-IsValid c =
    let tests = validate-tests c in
    let listen = string_eq.beq_iff c.server.listen "" in
    ((λ h. let t = tests.0 h in ground arith), λ v. tests.1 (ground (arith, listen)))
