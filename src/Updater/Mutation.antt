-- ===== src/Updater/Mutation.antt =====
-- The constants of `UpdaterMutationOperation`, in pkg/contracts/types_updater_protocol.go.
use autostream_contracts.Common.{String}

abbrev pub apply : String
apply = "apply"

abbrev pub reconcile : String
reconcile = "reconcile"

abbrev pub port_reconfigure : String
port_reconfigure = "port_reconfigure"

abbrev pub port_reconfigure_reconcile : String
port_reconfigure_reconcile = "port_reconfigure_reconcile"

abbrev pub bootstrap : String
bootstrap = "bootstrap"

abbrev pub bootstrap_reconcile : String
bootstrap_reconcile = "bootstrap_reconcile"

abbrev pub host_self_update_stage : String
host_self_update_stage = "host_self_update_stage"

abbrev pub host_self_update_activate : String
host_self_update_activate = "host_self_update_activate"

abbrev pub host_self_update_reconcile : String
host_self_update_reconcile = "host_self_update_reconcile"
