-- ===== src/Container/Succeeds.antt =====
-- EncryptBuffer does not fail without a cause: none of its own checks stops a permitted call.
use model_crypt.Services.{Services}
use model_crypt.Container.Returns.{Returns}
