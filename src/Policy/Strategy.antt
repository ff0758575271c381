-- ===== src/Policy/Strategy.antt =====
-- Which mechanism a selected strategy names.
use picdplayer.Assessment.{Knowledge}
use picdplayer.Prelude.{
  ℕ, ◌≡◌, refl, Bool, true, false, not, ◌&&◌, ◌||◌, List, ◌++◌, ◌⊎◌, inl, inr, codes, starts_with,
}
use picdplayer.Policy.{
  ReadVerificationMode, ReadPolicy, ReadStrategyDowngrade, ReadStrategySelection,
  select_read_strategy, backend_name, mode_suffix, vote_name, read_policy_strategy,
}
use picdplayer.Reader.{CddaBackend}

abbrev pub names_pointers : List ℕ → Bool
names_pointers strategy = starts_with strategy (codes "direct-c2-pointers")

abbrev pub is_direct : CddaBackend → Bool
is_direct CddaBackend.direct = true
is_direct CddaBackend.paranoia = false

abbrev pub is_yes : Knowledge → Bool
is_yes Knowledge.yes = true
is_yes Knowledge.no = false
is_yes Knowledge.unknown = false

abbrev pub is_none : ReadStrategyDowngrade → Bool
is_none ReadStrategyDowngrade.none = true
is_none ReadStrategyDowngrade.policy_restart_required = false
is_none ReadStrategyDowngrade.c2_probe_pending = false
is_none ReadStrategyDowngrade.c2_capability_unknown = false
is_none ReadStrategyDowngrade.c2_unsupported = false
is_none ReadStrategyDowngrade.c2_backend_unsupported = false
is_none ReadStrategyDowngrade.c2_stream_restart_required = false

-- A strategy with the backend's ordinary reads, whose text has no pointers in it.
ordinary :
    (mode : ReadVerificationMode) (backend : CddaBackend) (vote : List ℕ)
    → names_pointers (backend_name backend ++ mode_suffix mode vote) ≡ false
ordinary ReadVerificationMode.single CddaBackend.direct vote = refl
ordinary ReadVerificationMode.repeat CddaBackend.direct vote = refl
ordinary ReadVerificationMode.single CddaBackend.paranoia vote = refl
ordinary ReadVerificationMode.repeat CddaBackend.paranoia vote = refl

module _ (policy : ReadPolicy) where
  abbrev pub Selected : CddaBackend → Bool → Bool → Knowledge → ReadStrategySelection → Type 0
  Selected backend request probed supported s =
      (names_pointers s.effective ≡ (request && is_direct backend && probed && is_yes supported))
      × (is_none s.downgrade ≡ (not request || names_pointers s.effective))
      × (s.pending ≡ (request && is_direct backend && not probed))
      × ((s.effective ≡ s.requested) ⊎ (s.effective ≡ read_policy_strategy policy backend))

  -- The effective strategy reads pointers exactly if they are requested, the backend is the direct one,
  -- the probe is complete and found them supported; a downgrade is recorded exactly if they are
  -- requested and not read; the selection is pending exactly while a direct probe that a request needs
  -- is not complete; and the effective strategy is the requested one or the one with ordinary reads.
  pub select_read_strategy-Selected :
      (backend : CddaBackend) (request probed : Bool) (supported : Knowledge)
      → Selected backend request probed supported
          (select_read_strategy policy backend request probed supported)
  unfolding select_read_strategy
  select_read_strategy-Selected backend false probed supported =
      (ordinary policy.mode backend (vote_name policy), refl, refl, inl refl)
  select_read_strategy-Selected CddaBackend.paranoia true probed supported = (
    ordinary policy.mode CddaBackend.paranoia (vote_name policy),
    rw (ordinary policy.mode CddaBackend.paranoia (vote_name policy)) refl,
    refl,
    inl refl,
  )
  select_read_strategy-Selected CddaBackend.direct true false supported = (
    ordinary policy.mode CddaBackend.direct (vote_name policy),
    rw (ordinary policy.mode CddaBackend.direct (vote_name policy)) refl,
    refl,
    inr refl,
  )
  select_read_strategy-Selected CddaBackend.direct true true Knowledge.yes =
      (refl, refl, refl, inl refl)
  select_read_strategy-Selected CddaBackend.direct true true Knowledge.no = (
    ordinary policy.mode CddaBackend.direct (vote_name policy),
    rw (ordinary policy.mode CddaBackend.direct (vote_name policy)) refl,
    refl,
    inr refl,
  )
  select_read_strategy-Selected CddaBackend.direct true true Knowledge.unknown = (
    ordinary policy.mode CddaBackend.direct (vote_name policy),
    rw (ordinary policy.mode CddaBackend.direct (vote_name policy)) refl,
    refl,
    inr refl,
  )
