-- ===== src/Registry/Loading.antt =====
-- Which sets of files `load_registry` accepts, and what it makes of them.
use mathlib.Core.List.{append_assoc, append-nil}
use mathlib.Core.Path.{subst}
use zolexai.Prelude.{
  ◌≡◌, ◌≢◌, ◌↔◌, refl, sym, ap, ◌∙◌, String, false, Option, none, some, List, [], ◌∷◌, ◌++◌, map,
  ◌≈◌, ≈_iff, is_some, Bool-cases, Option-cases, inl, inr,
}
use zolexai.Workflow.{WorkflowDefinition, mentions, check_internal_consistency}
use zolexai.Workflow.Coherence.{IsCoherent, check_internal_consistency_iff}
use zolexai.Registry.{Registry, loaded, load_each, load_registry, keys}

-- A file that a definition can come from: its stem is the id.
abbrev pub file_of : WorkflowDefinition → String × Option WorkflowDefinition
file_of d = (d.id, some d)

-- Definitions that may follow the ones that are loaded: each is coherent and has an id of its own.
abbrev pub Follow : List WorkflowDefinition → List WorkflowDefinition → Type 0
Follow before [] = Unit
Follow before (d ∷ ds) =
    IsCoherent d × (mentions d.id (keys before) ≡ false) × Follow (before ++ d ∷ []) ds

is_some-none : {A : Type 0} {o : Option A} → is_some o ≡ false → o ≡ none
is_some-none {A} {o} e = elim (Option-cases o) [ inl n ↦ n | inr (a, s) ↦ cc (e, ap is_some s) ]

load_each_sound :
    (before : List WorkflowDefinition) (files : List (String × Option WorkflowDefinition))
    (r : Registry)
    → load_each before files ≡ loaded r
    → (ds : List WorkflowDefinition) × (files ≡ map file_of ds)
      × (r.definitions ≡ before ++ ds)
      × Follow before ds
unfolding load_each
load_each_sound before [] r e =
    let same : record { definitions = before } ≡ r = cc e in
    ([], refl, ap (λ x. x.definitions) (sym same) ∙ sym (append-nil before), tt)
load_each_sound before ((stem, none) ∷ files) r e = cc e
load_each_sound before ((stem, some d) ∷ files) r e =
    elim (Bool-cases (is_some (check_internal_consistency d))) [
      | inl bad ↦ cc (rw bad at e)
      | inr coherent ↦ elim (Bool-cases (d.id ≈ stem)) [
        | inr differs ↦ cc (rw (coherent, differs) at e)
        | inl agrees ↦ elim (Bool-cases (mentions d.id (keys before))) [
          | inl again ↦ cc (rw (coherent, agrees, again) at e)
          | inr fresh ↦
              let (ds, rest, all, follow) =
                load_each_sound (before ++ d ∷ []) files r (rw (coherent, agrees, fresh) at e) in
              (
                d ∷ ds,
                cc (rest, (≈_iff d.id stem).0 agrees),
                all ∙ append_assoc before (d ∷ []) ds,
                ((check_internal_consistency_iff d).0 (is_some-none coherent), fresh, follow),
              )
        ]
      ]
    ]

load_each_complete :
    (before ds : List WorkflowDefinition)
    → Follow before ds
    → load_each before (map file_of ds) ≡ loaded (record { definitions = before ++ ds })
unfolding load_each
load_each_complete before [] h =
    ap (λ ds. loaded (record { definitions = ds })) (sym (append-nil before))
load_each_complete before (d ∷ ds) h =
    rw ((check_internal_consistency_iff d).1 h.0, (≈_iff d.id d.id).1 refl, h.1)
      (load_each_complete (before ++ d ∷ []) ds h.2
        ∙ ap (λ es. loaded (record { definitions = es })) (append_assoc before (d ∷ []) ds))

-- The registry loads exactly when there is a file, every file parses to a coherent definition whose
-- id is the file's stem, and no two have the same id; it then holds these definitions in the order
-- of the files.
pub load_registry_iff :
    (files : List (String × Option WorkflowDefinition)) (r : Registry)
    → (load_registry files ≡ loaded r)
      ↔ ((files ≢ []) × (files ≡ map file_of r.definitions) × Follow [] r.definitions)
unfolding load_registry
load_registry_iff [] r = (λ e. cc e, λ h. absurd (h.0 refl))
load_registry_iff (f ∷ fs) r = (
  λ e.
      let (ds, files, all, follow) = load_each_sound [] (f ∷ fs) r e in
      (λ n. cc n, files ∙ ap (map file_of) (sym all), subst (Follow []) (sym all) follow),
  λ (some_file, files, follow).
      ap (load_each []) files ∙ load_each_complete [] r.definitions follow,
)
