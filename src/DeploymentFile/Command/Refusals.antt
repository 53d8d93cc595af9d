-- ===== src/DeploymentFile/Command/Refusals.antt =====
-- What CreateOrUpdate refuses.
