-- ===== src/Examples/Components.antt =====
-- The smaller components at concrete inputs.
use zolexai.Prelude.{◌≡◌, ◌≢◌, ◌⊎◌, ◌↔◌, ◌≤◌, false, some, [], ◌∷◌, map}
use zolexai.Registry.{valid, validate_request, get, load_registry, loaded}
use zolexai.Registry.Validation.{Satisfies, validate_request_iff}
use zolexai.Registry.Loading.{file_of, Follow, load_registry_iff}
use zolexai.Service.Messages.{
  safe_failure_message, safe_failure_message_clean, leaks, generic_failure,
}
use zolexai.Text.{strip, text_length}
use zolexai.Examples.{registry, song, params}

validate_request_iff_example :
    (validate_request registry "music" "a sea song" params [] ≡ valid song)
    ↔ ((get registry "music" ≡ some song) × Satisfies song "a sea song" params [])
validate_request_iff_example = validate_request_iff registry "music" "a sea song" params [] song

load_registry_iff_example : (load_registry (file_of song ∷ []) ≡ loaded registry) ↔ (
    (file_of song ∷ [] ≢ [])
    × (file_of song ∷ [] ≡ map file_of registry.definitions)
    × Follow [] registry.definitions)
load_registry_iff_example = load_registry_iff (file_of song ∷ []) registry

safe_failure_message_clean_example :
    (leaks (safe_failure_message "CUDA out of memory") ≡ false)
    × (text_length (safe_failure_message "CUDA out of memory") ≤ 300)
    × (safe_failure_message "CUDA out of memory" ≢ "")
    × ((safe_failure_message "CUDA out of memory" ≡ strip "CUDA out of memory")
        ⊎ (safe_failure_message "CUDA out of memory" ≡ generic_failure))
safe_failure_message_clean_example = safe_failure_message_clean "CUDA out of memory"
