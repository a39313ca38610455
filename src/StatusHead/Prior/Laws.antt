-- ===== src/StatusHead/Prior/Laws.antt =====
-- The branch of `refresh` in scripts/contracts/status_head_authority.py on the prior checkpoint.
use bytedesk_agent_delivery.Prelude.{
  ℕ, ◌≡◌, refl, ◌∙◌, ap, Text, codes, Bool, true, false, not, Option, none, some, Result, ok, err,
  ◌⊎◌, length, ℤ, pos, lessℤ, ◌>>=◌, inl, inr, >>=-eq-ok, ok-injective, require-eq-ok,
}
use bytedesk_agent_delivery.Json.{
  Value, null, boolean, integer, floating, string, array, object, other,
}
use bytedesk_agent_delivery.Json.Document.Laws.{equal-number, equal-string}
use bytedesk_agent_delivery.Json.Document.{number, member, equal}
use bytedesk_agent_delivery.StatusHead.{
  HeadError, present, rollback_or_equivocation, prior_subject_mismatch, Adapters, Registry, item,
  Head,
}
use bytedesk_agent_delivery.StatusHead.Prior.{
  Request, PriorState, less, both, equals_item, same_subject, is_unchanged, is_advanced, advance,
  prior_state,
}

-- The checkpoint is that of the log as it is.
pub record Unchanged (h : Head) (prior : Value) (root leaf_digest : Text) : Type 0 where
  pub tree_size_at : member (codes "treeSize") prior ≡ some (number (length h.log_leaves))
  pub epoch_at : member (codes "epoch") prior ≡ some (number h.epoch)
  pub root_at : member (codes "logRootDigest") prior ≡ some (string root)
  pub leaf_at : member (codes "headLeafDigest") prior ≡ some (string leaf_digest)

-- The log has grown since the checkpoint, the sequence has risen and the epoch has not fallen.
pub record Advanced (h : Head) (prior : Value) : Type 0 where
  pub tree_size : ℤ
  pub tree_size_at : member (codes "treeSize") prior ≡ some (integer tree_size)
  pub grown : lessℤ tree_size (pos (length h.log_leaves)) ≡ true
  pub prior_sequence : ℤ
  pub prior_sequence_at : member (codes "sequence") prior ≡ some (integer prior_sequence)
  pub sequence : ℤ
  pub sequence_at : member (codes "sequence") h.status ≡ some (integer sequence)
  pub risen : lessℤ prior_sequence sequence ≡ true
  pub epoch : ℤ
  pub epoch_at : member (codes "epoch") prior ≡ some (integer epoch)
  pub not_older : lessℤ (pos h.epoch) epoch ≡ false

both-ok : (m n : Result HeadError Bool) → both m n ≡ ok true → (m ≡ ok true) × (n ≡ ok true)
both-ok (ok true) n h = (refl, h)
both-ok (ok false) n h = cc
both-ok (err e) n h = cc

present-ok : (o : Option Value) {v : Value} → present o ≡ ok v → o ≡ some v
present-ok none h = cc
present-ok (some v) h = cc

less-ok :
    (v w : Value) {b : Bool}
    → less v w ≡ ok b
    → (x : ℤ) × (y : ℤ) × (v ≡ integer x) × (w ≡ integer y) × (lessℤ x y ≡ b)
unfolding less
less-ok (integer x) (integer y) h = (x, y, refl, refl, ok-injective h)
less-ok (integer x) null h = cc
less-ok (integer x) (boolean b) h = cc
less-ok (integer x) (floating f) h = cc
less-ok (integer x) (string t) h = cc
less-ok (integer x) (array i) h = cc
less-ok (integer x) (object f) h = cc
less-ok (integer x) other h = cc
less-ok null w h = cc
less-ok (boolean b) w h = cc
less-ok (floating f) w h = cc
less-ok (string t) w h = cc
less-ok (array i) w h = cc
less-ok (object f) w h = cc
less-ok other w h = cc

equals_item-ok :
    (v : Value) (k : Text) (d : Value)
    → equals_item v k d ≡ ok true
    → (w : Value) × (member k d ≡ some w) × (equal v w ≡ true)
unfolding equals_item
equals_item-ok v k d h =
    let (w, at, e) = >>=-eq-ok (item k d) _ h in (w, present-ok (member k d) at, ok-injective e)

number-item :
    (n : ℕ) (k : Text) (d : Value)
    → equals_item (number n) k d ≡ ok true
    → member k d ≡ some (number n)
number-item n k d h =
    let (w, at, e) = equals_item-ok (number n) k d h in at ∙ ap some (equal-number n w e)

string-item :
    (s k : Text) (d : Value) → equals_item (string s) k d ≡ ok true → member k d ≡ some (string s)
string-item s k d h =
    let (w, at, e) = equals_item-ok (string s) k d h in at ∙ ap some (equal-string s w e)

is_unchanged-ok :
    (a : Adapters) (h : Head) (prior : Value) (root leaf_digest : Text)
    → is_unchanged a h prior root leaf_digest ≡ ok true
    → Unchanged h prior root leaf_digest
unfolding is_unchanged
is_unchanged-ok a h prior root leaf_digest e =
    let (tree_size, e1) =
      both-ok (equals_item (number (length h.log_leaves)) (codes "treeSize") prior) _ e in
    let (sequence, e2) =
      both-ok (item (codes "sequence") h.status >>= λ s. equals_item s (codes "sequence") prior) _
        e1 in
    let (head, e3) = both-ok (equals_item h.status_descriptor (codes "head") prior) _ e2 in
    let (epoch, e4) = both-ok (equals_item (number h.epoch) (codes "epoch") prior) _ e3 in
    let (root_same, leaf_same) =
      both-ok (equals_item (string root) (codes "logRootDigest") prior) _ e4 in
    record {
      tree_size_at = number-item (length h.log_leaves) (codes "treeSize") prior tree_size;
      epoch_at = number-item h.epoch (codes "epoch") prior epoch;
      root_at = string-item root (codes "logRootDigest") prior root_same;
      leaf_at = string-item leaf_digest (codes "headLeafDigest") prior leaf_same;
    }

not-not : (b : Bool) → not b ≡ true → b ≡ false
not-not true h = cc
not-not false h = refl

is_advanced-ok :
    (a : Adapters) (h : Head) (prior : Value) → is_advanced a h prior ≡ ok true → Advanced h prior
unfolding is_advanced
is_advanced-ok a h prior e =
    let (grown, e1) =
      both-ok (item (codes "treeSize") prior >>= λ s. less s (number (length h.log_leaves))) _ e in
    let (risen, e2) =
      both-ok
        (item (codes "sequence") h.status >>= λ s. item (codes "sequence") prior >>= λ p. less p s)
        _ e1 in
    let (t, t_at, t1) = >>=-eq-ok (item (codes "treeSize") prior) _ grown in
    let (x, y, tx, ty, txy) = less-ok t (number (length h.log_leaves)) t1 in
    let (s, s_at, s1) = >>=-eq-ok (item (codes "sequence") h.status) _ risen in
    let (p, p_at, p1) = >>=-eq-ok (item (codes "sequence") prior) _ s1 in
    let (px, sy, pe, se, pse) = less-ok p s p1 in
    let (v, v_at, v1) = >>=-eq-ok (item (codes "epoch") prior) _ e2 in
    let (b, b_at, b1) = >>=-eq-ok (less (number h.epoch) v) _ v1 in
    let (ex, ey, exe, eye, exy) = less-ok (number h.epoch) v b_at in
    let same_size : y ≡ pos (length h.log_leaves) = cc in
    let same_epoch : ex ≡ pos h.epoch = cc in
    let younger : b ≡ false = not-not b (ok-injective b1) in
    record {
      tree_size = x;
      tree_size_at = present-ok (member (codes "treeSize") prior) t_at ∙ ap some tx;
      grown = rw same_size at txy;
      prior_sequence = px;
      prior_sequence_at = present-ok (member (codes "sequence") prior) p_at ∙ ap some pe;
      sequence = sy;
      sequence_at = present-ok (member (codes "sequence") h.status) s_at ∙ ap some se;
      risen = pse;
      epoch = ey;
      epoch_at = present-ok (member (codes "epoch") prior) v_at ∙ ap some eye;
      not_older = (rw same_epoch at exy) ∙ younger;
    }

advance-ok :
    (a : Adapters) (r : Request) (prior state : Value) (unchanged : Bool) (registry : Registry)
    {s : PriorState}
    → advance a r prior state unchanged registry ≡ ok s
    → (unchanged ≡ true) ⊎ (is_advanced a r.head prior ≡ ok true)
unfolding advance
advance-ok a r prior state true registry h = inl refl
advance-ok a r prior state false registry h =
    let (advanced, at, h1) = >>=-eq-ok (is_advanced a r.head prior) _ h in
    let (e, h2) = require-eq-ok advanced rollback_or_equivocation _ h1 in inr (at ∙ ap ok e)

-- A refresh gets past its branch on a prior checkpoint only where the checkpoint states the size,
-- the root, the last leaf and the epoch of the log as it is now, or where the log is longer than the
-- checkpoint states, the status has a higher sequence, and the epoch is not below that of the
-- checkpoint.
pub prior_state_no_rollback :
    (a : Adapters) (r : Request) (prior : Value) (root leaf_digest : Text) (registry : Registry)
    {s : PriorState}
    → prior_state a r (some prior) root leaf_digest registry ≡ ok s
    → Unchanged r.head prior root leaf_digest ⊎ Advanced r.head prior
unfolding prior_state
prior_state_no_rollback a r prior root leaf_digest registry h =
    let (subject_matches, _, h1) = >>=-eq-ok (same_subject a r.head prior) _ h in
    let (_, h2) = require-eq-ok subject_matches prior_subject_mismatch _ h1 in
    let (_, _, h3) = >>=-eq-ok (item (codes "sequence") prior) _ h2 in
    let (_, _, h4) = >>=-eq-ok (item (codes "epoch") prior) _ h3 in
    let (_, _, h5) = >>=-eq-ok (item (codes "treeSize") prior) _ h4 in
    let (_, _, h6) = >>=-eq-ok (item (codes "logRootDigest") prior) _ h5 in
    let (_, _, h7) = >>=-eq-ok (item (codes "headLeafDigest") prior) _ h6 in
    let (unchanged, at, h8) = >>=-eq-ok (is_unchanged a r.head prior root leaf_digest) _ h7 in
    elim (advance-ok a r prior _ unchanged registry h8) [
      | inl e ↦ inl (is_unchanged-ok a r.head prior root leaf_digest (at ∙ ap ok e))
      | inr e ↦ inr (is_advanced-ok a r.head prior e)
    ]
