-- ===== src/Optimizer/Dag/Flip/Under.antt =====
-- One node of the loop of `FlipRootsToLeaves` of src/optimizer/robust_optimizer.cpp: all its children are
-- flipped.
