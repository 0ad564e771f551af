-- ===== src/Socket/Names.antt =====
-- The enumerations of include/pposix/socket.hpp that `socket::unsafe_make` and the option calls take,
-- with the enumerators of all platforms and the macros of <sys/socket.h> and <netinet/in.h> that give
-- them their values.
use pposix.Base.{ℕ, bit_or}

pub data SocketDomain : Type 0 where
  inet inet6 unix_ unspecified local file : SocketDomain
  ax25 ipx appletalk x25 decnet key : SocketDomain
  netlink packet rds pppox llc ib : SocketDomain
  mpls can tipc bluetooth alg vsock : SocketDomain
  kcm xdp : SocketDomain

pub data DomainMacro : Type 0 where
  af_inet af_inet6 af_unix af_unspec af_local af_file : DomainMacro
  af_ax25 af_ipx af_appletalk af_x25 af_decnet af_key : DomainMacro
  af_netlink af_packet af_rds af_pppox af_llc af_ib : DomainMacro
  af_mpls af_can af_tipc af_bluetooth af_alg af_vsock : DomainMacro
  af_kcm af_xdp : DomainMacro

unfoldable pub socket_domain_macro : SocketDomain → DomainMacro
socket_domain_macro inet = af_inet
socket_domain_macro inet6 = af_inet6
socket_domain_macro unix_ = af_unix
socket_domain_macro unspecified = af_unspec
socket_domain_macro local = af_local
socket_domain_macro file = af_file
socket_domain_macro ax25 = af_ax25
socket_domain_macro ipx = af_ipx
socket_domain_macro appletalk = af_appletalk
socket_domain_macro x25 = af_x25
socket_domain_macro decnet = af_decnet
socket_domain_macro key = af_key
socket_domain_macro netlink = af_netlink
socket_domain_macro packet = af_packet
socket_domain_macro rds = af_rds
socket_domain_macro pppox = af_pppox
socket_domain_macro llc = af_llc
socket_domain_macro ib = af_ib
socket_domain_macro mpls = af_mpls
socket_domain_macro can = af_can
socket_domain_macro tipc = af_tipc
socket_domain_macro bluetooth = af_bluetooth
socket_domain_macro alg = af_alg
socket_domain_macro vsock = af_vsock
socket_domain_macro kcm = af_kcm
socket_domain_macro xdp = af_xdp

pub data SocketType : Type 0 where
  stream dgram seqpacket raw : SocketType

pub data TypeMacro : Type 0 where
  sock_stream sock_dgram sock_seqpacket sock_raw : TypeMacro

unfoldable pub socket_type_macro : SocketType → TypeMacro
socket_type_macro stream = sock_stream
socket_type_macro dgram = sock_dgram
socket_type_macro seqpacket = sock_seqpacket
socket_type_macro raw = sock_raw

pub data SocketProtocol : Type 0 where
  ip icmp igmp tcp pup udp : SocketProtocol
  idp raw : SocketProtocol

pub data ProtocolMacro : Type 0 where
  ipproto_ip ipproto_icmp ipproto_igmp ipproto_tcp ipproto_pup ipproto_udp : ProtocolMacro
  ipproto_idp ipproto_raw : ProtocolMacro

unfoldable pub socket_protocol_macro : SocketProtocol → ProtocolMacro
socket_protocol_macro ip = ipproto_ip
socket_protocol_macro icmp = ipproto_icmp
socket_protocol_macro igmp = ipproto_igmp
socket_protocol_macro tcp = ipproto_tcp
socket_protocol_macro pup = ipproto_pup
socket_protocol_macro udp = ipproto_udp
socket_protocol_macro idp = ipproto_idp
socket_protocol_macro raw = ipproto_raw

pub data SocketLevel : Type 0 where
  socket ip ipv6 icmp raw tcp : SocketLevel
  udp : SocketLevel

pub data LevelMacro : Type 0 where
  sol_socket ipproto_ip_level ipproto_ipv6_level ipproto_icmp_level ipproto_raw_level
        ipproto_tcp_level :
      LevelMacro
  ipproto_udp_level : LevelMacro

unfoldable pub socket_level_macro : SocketLevel → LevelMacro
socket_level_macro socket = sol_socket
socket_level_macro ip = ipproto_ip_level
socket_level_macro ipv6 = ipproto_ipv6_level
socket_level_macro icmp = ipproto_icmp_level
socket_level_macro raw = ipproto_raw_level
socket_level_macro tcp = ipproto_tcp_level
socket_level_macro udp = ipproto_udp_level

-- `socket_flag`, an enumeration of `unsigned`s.
pub record SocketFlag : Type 0 where
  pub bits : ℕ

pub data SocketFlagName : Type 0 where
  none closexec nonblock : SocketFlagName

pub data FlagMacro : Type 0 where
  sock_cloexec sock_nonblock : FlagMacro

unfoldable pub socket_flag_value : (FlagMacro → ℕ) → SocketFlagName → SocketFlag
socket_flag_value m none = record { bits = 0 }
socket_flag_value m closexec = record { bits = m sock_cloexec }
socket_flag_value m nonblock = record { bits = m sock_nonblock }

-- `operator|`
unfoldable pub socket_flag_or : SocketFlag → SocketFlag → SocketFlag
socket_flag_or lhs rhs = record { bits = bit_or lhs.bits rhs.bits }
