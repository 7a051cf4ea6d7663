-- ===== src/Pushlog/Transformed.antt =====
-- The transformation of a push log, at once.
use treeherder_service.Prelude.{
  String, ◌≡◌, refl, ap, ◌∙◌, true, List, [], ◌∷◌, ◌++◌, map, str_eq, lookup, insert, string_eq,
  append_assoc, append-nil,
}
use treeherder_service.Pushlog.{
  Changeset, Push, Content, RevisionData, ResultSetData, Env, revision_of, add_changes, result_set,
  or_active, generate_revision_hash, transform,
}

abbrev pub components_of : List Changeset → List String
components_of [] = []
components_of (c ∷ cs) = c.node ∷ c.branch ∷ components_of cs

add_changes_lem :
    (repository : String) (cs : List Changeset) (components : List String)
    (revisions : List RevisionData)
    → add_changes repository cs components revisions
      ≡ (components ++ components_of cs, revisions ++ map (revision_of repository) cs)
unfolding add_changes
add_changes_lem repository [] components revisions =
    rw (append-nil components, append-nil revisions) refl
add_changes_lem repository (c ∷ cs) components revisions =
    add_changes_lem repository cs (components ++ c.node ∷ c.branch ∷ [])
      (revisions ++ revision_of repository c ∷ [])
    ∙ rw
        (
          append_assoc components (c.node ∷ c.branch ∷ []) (components_of cs),
          append_assoc revisions (revision_of repository c ∷ []) (map (revision_of repository) cs),
        )
        refl

-- the result set of a push, all at once
abbrev pub result_set_of : Env → String → String × Push → ResultSetData
result_set_of env repository entry =
    let (id, push) = entry in
    record {
      push_timestamp = push.date;
      revisions = map (revision_of repository) push.changesets;
      author = push.user;
      active_status = or_active push.active_status;
      revision_hash = generate_revision_hash env.printing (components_of push.changesets);
    }

result_set_lem :
    (env : Env) (repository id : String) (push : Push)
    → result_set env repository push ≡ result_set_of env repository (id, push)
unfolding result_set
result_set_lem env repository id push =
    ap
      (λ (p : List String × List RevisionData). record {
        push_timestamp = push.date;
        revisions = p.1;
        author = push.user;
        active_status = or_active push.active_status;
        revision_hash = generate_revision_hash env.printing p.0;
      })
      (add_changes_lem repository push.changesets [] [])

transform-more :
    (env : Env) (repository : String) (pushlog : Content) (result_sets : List ResultSetData)
    → transform env repository pushlog ((repository, result_sets) ∷ [])
      ≡ (repository, result_sets ++ map (result_set_of env repository) pushlog) ∷ []
unfolding transform lookup insert
transform-more env repository [] result_sets = rw (append-nil result_sets) refl
transform-more env repository ((id, push) ∷ pushlog) result_sets =
    let same : str_eq repository repository ≡ true =
      (string_eq.beq_iff repository repository).1 refl in
    rw same (
      transform-more env repository pushlog (result_sets ++ result_set env repository push ∷ [])
      ∙ rw
          (
            append_assoc result_sets (result_set env repository push ∷ [])
                (map (result_set_of env repository) pushlog),
            result_set_lem env repository id push,
          )
          refl)

pub transform_lem :
    (env : Env) (repository : String) (entry : String × Push) (pushlog : Content)
    → transform env repository (entry ∷ pushlog) []
      ≡ (repository, map (result_set_of env repository) (entry ∷ pushlog)) ∷ []
unfolding transform lookup insert
transform_lem env repository (id, push) pushlog =
    transform-more env repository pushlog (result_set env repository push ∷ [])
    ∙ rw (result_set_lem env repository id push) refl
