-- ===== src/Backends.antt =====
-- pkg/providers: the providers.
pub mod Dummy
pub mod DummyHolds
pub mod Aws
pub mod AwsProvider
pub mod AwsLaunches
pub mod AwsGone
pub mod Equinix
pub mod EquinixDevices
pub mod EquinixClients
pub mod Libvirt
pub mod LibvirtProvider
pub mod LibvirtFrame
pub mod LibvirtGone
pub mod Ports
pub mod Ironic
pub mod IronicNodes
pub mod IronicProvider
pub mod IronicReady
pub mod IronicGone
pub mod IronicFrame
pub mod IbmCloud
pub mod IbmCloudProvider
pub mod IbmCloudHosts
