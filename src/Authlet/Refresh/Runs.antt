-- ===== src/Authlet/Refresh/Runs.antt =====
-- Sequences of the operations that change the tables of refresh.go, each against a database that may
-- fail in its own way.
use memory_system.Prelude.{ℕ, Text, List, [], ◌∷◌}
use memory_system.Authlet.Errors.{Database}
use memory_system.Authlet.Refresh.{
  RefreshToken, RefreshStore, save, mark_used, revoke_family, delete_expired,
}

pub data Op : Type 0 where
  saving : Database → RefreshToken → Op
  marking : Database → Text → Text → Op
  revoking : Database → ℕ → Text → Op
  sweeping : Database → Database → ℕ → Op

unfoldable pub after_op : Op → RefreshStore → RefreshStore
unfolding save mark_used revoke_family delete_expired
after_op (saving db rt) s = (save db rt s).1
after_op (marking db hash replaced_by) s = (mark_used db hash replaced_by s).1
after_op (revoking db now family_id) s = (revoke_family db now family_id s).1
after_op (sweeping purging pruning before) s = (delete_expired purging pruning before s).1

unfoldable pub after_ops : List Op → RefreshStore → RefreshStore
unfolding after_op
after_ops [] s = s
after_ops (o ∷ os) s = after_ops os (after_op o s)
