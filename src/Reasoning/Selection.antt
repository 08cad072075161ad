-- ===== src/Reasoning/Selection.antt =====
-- Who is selected to answer a request.
use local_first_se_platform.Workers.Worker.{Worker}
use local_first_se_platform.Plugins.Registry.{Registry}
