-- ===== src/Backends/Ports.antt =====
-- pkg/utils/utils.go: `IsPortOpen`.
use ofcir.Prelude.{String, Bool, true, false, Exec, pure, catch, ◌>>◌}

-- `IsPortOpen`, where `dial` is `net.DialTimeout` on a host and a port and the closing of the
-- connection
unfoldable pub is_port_open :
    {W : Type 0} → (String → String → Exec W (Unit {0})) → String → String → Exec W Bool
is_port_open dial host port = catch (dial host port >> pure true) (λ e. pure false)
