-- ===== src/Arcgis/Handed.antt =====
-- The artifact that `handoff_command` of services/arcgis.py makes, before `_emit` redacts it.
use honua_migrate.Base.{
  ◌≡◌, ℕ, ◌⊎◌, Bool, true, false, List, String, ◌==◌, string_eq, Option, none, some, contains,
}
use honua_migrate.Json.{Json, Fields}
use honua_migrate.Runs.Contracts.{ok}
use honua_migrate.Secrets.Artifact.{Port}
use honua_migrate.Readiness.Words.{Parts}
use honua_migrate.Arcgis.Urls.{safe_url}
use honua_migrate.Arcgis.Artifact.{is_some}
use honua_migrate.Arcgis.Scoped.{Covers}
use honua_migrate.Arcgis.Handoff.{
  mode_values, recovery_actions, divergence_handling_values, Options, is_one_of, Effort,
  is_negative, Handoff, handoff_manifest,
}
use honua_migrate.Arcgis.Command.{switchback}
use honua_migrate.Arcgis.Worst.{Worst}
use honua_migrate.Arcgis.Declared.{ByMode, Changes}

-- A switch back of the endpoint says what becomes of the divergence, and nothing else does.
abbrev pub Recovers : String → Option String → Type 0
Recovers action handling =
    ((action == switchback) ≡ true) × (is_one_of divergence_handling_values handling ≡ true)
    ⊎ ((action == switchback) ≡ false) × (handling ≡ none)

module _ {F : Type 0} (negative : F → Bool) where
  -- What is recorded of the effort was given, and with consent.
  pub record Consented (consent : Bool) (elapsed : Option F) (manual : Option ℕ)
      (effort : Option (Effort F)) : Type 0 where
    pub by_consent : is_some effort ≡ consent
    pub as_given :
        (effort ≡ none)
        ⊎ (effort ≡ some (record { elapsed_seconds = elapsed; manual_interventions = manual }))
    pub not_negative : is_negative negative elapsed ≡ true → effort ≡ none

module _ (urlsplit : String → Option Parts) (port_of : String → Port)
    (urlunsplit : String → String → String → String) where
  module _ {F : Type 0} (negative : F → Bool) (valid : Json → Bool) (plan_digest : Fields → String)
      (files : String → Option Json) (valid_handoff : Handoff F → Bool) where
    -- What an artifact says, of the options and of the manifest at `path`
    pub record Declares (path : String) (o : Options F) (h : Handoff F) : Type 0 where
      pub entries : List Json
      pub manifest : handoff_manifest (files path) ≡ ok entries
      pub covers : Covers valid plan_digest files h.target_service_url entries h.scope
      pub target :
          safe_url urlsplit port_of urlunsplit o.target_service_url ≡ ok h.target_service_url
      pub by_mode : ByMode o h.mode_fields
      pub known_mode : (h.mode ≡ o.mode) × (contains mode_values o.mode ≡ true)
      pub changes : Changes o.source_change h.source_changes
      pub worst : Worst o.import_outcome o.reconciliation_outcome o.retained_app_outcome h.outcome
      pub recovery :
          (h.status.recovery_action ≡ o.recovery_action)
          × (contains recovery_actions o.recovery_action ≡ true)
          × Recovers o.recovery_action h.status.divergence_handling
      pub effort :
          Consented negative o.effort_consent o.elapsed_seconds o.manual_interventions h.effort
      pub validated : valid_handoff h ≡ true
