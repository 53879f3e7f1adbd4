-- ===== src/ControlPlane/Publication/Laws.antt =====
-- Publications and withdrawals of a skill, in sequence.
use skillplane.Common.{
  ℕ, String, ◌≡◌, Option, none, some, Bool, true, false, not, ◌&&◌, ◌||◌, List, [], ◌∷◌, All, arith,
  eq_iff, str_eq, leb, ltb, Result, ok, err, Date,
}
use skillplane.ControlPlane.Publication.{
  Directory, Head, Projection, Publish, Unpublish, ProjectionError, is_published, accepts,
  head_sequence, publish, unpublish,
}

pub data Op : Type 0 where
  expose : Date → Publish → Op
  hide : Date → Unpublish → Op

-- A statement that fails has written nothing.
abbrev pub or_unchanged : Directory → Result ProjectionError Directory → Directory
or_unchanged d (ok d') = d'
or_unchanged d (err e) = d

abbrev pub run_op : Op → Directory → Directory
run_op (expose now i) d = or_unchanged d (publish now i d)
run_op (hide now i) d = or_unchanged d (unpublish now i d)

unfoldable pub run_ops : List Op → Directory → Directory
run_ops [] d = d
run_ops (op ∷ ops) d = run_ops ops (run_op op d)

-- A projection is no later than the head of its skill.
abbrev pub within : Option Projection → Option Head → Bool
within none h = true
within (some p) none = false
within (some p) (some h) = leb p.sequence h.sequence

unfoldable pub IsFenced : String → String → Directory → Type 0
IsFenced ws skill d = (v : String) → within (d.projections ws skill v) (d.heads ws skill) ≡ true

-- The head has come to a sequence.
abbrev pub has_come : ℕ → Option Head → Bool
has_come n none = false
has_come n (some h) = leb n h.sequence

abbrev pub is_public : Option Projection → Bool
is_public none = false
is_public (some p) = is_published p.state

-- A publication of the skill is older than a sequence.
abbrev pub is_older : String → String → ℕ → Op → Bool
is_older ws skill n (hide now i) = true
is_older ws skill n (expose now i) =
    not (str_eq i.workspace_id ws && str_eq i.skill_id skill) || ltb i.sequence n

module _ (ws skill : String) where
  run_op-IsFenced :
      (op : Op) (d : Directory) → IsFenced ws skill d → IsFenced ws skill (run_op op d)
  unfolding IsFenced publish unpublish accepts
  run_op-IsFenced (expose now i) d h v =
      let k = h v in ground (arith, k, eq_iff i.workspace_id ws, eq_iff i.skill_id skill)
  run_op-IsFenced (hide now i) d h v =
      let k = h v in ground (arith, k, eq_iff i.workspace_id ws, eq_iff i.skill_id skill)

  -- Whatever is published and withdrawn, no projection of a skill gets ahead of the head.
  pub run_ops-IsFenced :
      (ops : List Op) (d : Directory) → IsFenced ws skill d → IsFenced ws skill (run_ops ops d)
  unfolding run_ops
  run_ops-IsFenced [] d h = h
  run_ops-IsFenced (op ∷ ops) d h = run_ops-IsFenced ops (run_op op d) (run_op-IsFenced op d h)

  -- The head has come to the sequence, and no version of the skill is public.
  record IsHidden (n : ℕ) (d : Directory) : Type 0 where
    come : has_come n (d.heads ws skill) ≡ true
    gone : (v : String) → is_public (d.projections ws skill v) ≡ false

  run_op-IsHidden :
      (n : ℕ) (op : Op) (d : Directory)
      → is_older ws skill n op ≡ true
      → IsHidden n d
      → IsHidden n (run_op op d)
  unfolding publish unpublish accepts
  run_op-IsHidden n (expose now i) d o h = record {
    come =
        let k = h.come in ground (arith, k, o, eq_iff i.workspace_id ws, eq_iff i.skill_id skill);
    gone = λ v.
        let k = h.come in
        let g = h.gone v in
        ground (arith, k, g, o, eq_iff i.workspace_id ws, eq_iff i.skill_id skill);
  }
  run_op-IsHidden n (hide now i) d o h = record {
    come = let k = h.come in ground (arith, k, eq_iff i.workspace_id ws, eq_iff i.skill_id skill);
    gone = λ v.
        let g = h.gone v in ground (arith, g, eq_iff i.workspace_id ws, eq_iff i.skill_id skill);
  }

  run_ops-IsHidden :
      (n : ℕ) (ops : List Op) (d : Directory)
      → All (λ op. is_older ws skill n op ≡ true) ops
      → IsHidden n d
      → IsHidden n (run_ops ops d)
  unfolding run_ops
  run_ops-IsHidden n [] d o h = h
  run_ops-IsHidden n (op ∷ ops) d (o, os) h =
      run_ops-IsHidden n ops (run_op op d) os (run_op-IsHidden n op d o h)

unpublish-IsHidden :
    (now : Date) (i : Unpublish) (slug : String) (d : Directory)
    → IsFenced i.workspace_id i.skill_id d
    → d.workspaces i.workspace_id ≡ some slug
    → accepts (head_sequence (d.heads i.workspace_id i.skill_id)) i.sequence ≡ true
    → IsHidden i.workspace_id i.skill_id i.sequence (run_op (hide now i) d)
unfolding unpublish IsFenced accepts
unpublish-IsHidden now i slug d fenced there accepted = record {
  come = ground (arith, eq_iff i.workspace_id i.workspace_id, eq_iff i.skill_id i.skill_id);
  gone = λ v.
      let f = fenced v in
      ground (arith, f, eq_iff i.workspace_id i.workspace_id, eq_iff i.skill_id i.skill_id);
}

-- Where no projection of the skill is ahead of its head, and the head accepts a withdrawal, no
-- version of the skill is public after it, and none becomes so by any withdrawals and by any
-- publications that are older than the withdrawal or of other skills.
pub unpublish-hides :
    (now : Date) (i : Unpublish) (slug : String) (d : Directory)
    → IsFenced i.workspace_id i.skill_id d
    → d.workspaces i.workspace_id ≡ some slug
    → accepts (head_sequence (d.heads i.workspace_id i.skill_id)) i.sequence ≡ true
    → (ops : List Op) → All (λ op. is_older i.workspace_id i.skill_id i.sequence op ≡ true) ops
    → (v : String)
    → is_public ((run_ops ops (run_op (hide now i) d)).projections i.workspace_id i.skill_id v)
      ≡ false
unpublish-hides now i slug d fenced there accepted ops older v =
    let h =
      run_ops-IsHidden i.workspace_id i.skill_id i.sequence ops (run_op (hide now i) d) older
        (unpublish-IsHidden now i slug d fenced there accepted) in
    h.gone v
