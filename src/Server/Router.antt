-- ===== src/Server/Router.antt =====
-- Which services a router has.
use grpc_server_rust.Prelude.{◌≡◌, arith, not, ◌&&◌, List}
use grpc_server_rust.Models.{DialoutMode, normal, gpb, gnmi, udp, is_udp}
use grpc_server_rust.Server.{contains, router_services}

-- Whatever modes are configured, the router has exactly the services of the gRPC modes among them.
pub router_services-contains :
    (ms : List DialoutMode) (m : DialoutMode)
    → contains (router_services ms) m ≡ (contains ms m && not (is_udp m))
unfolding router_services contains is_udp
router_services-contains ms normal = ground arith
router_services-contains ms gpb = ground arith
router_services-contains ms gnmi = ground arith
router_services-contains ms udp = ground arith
