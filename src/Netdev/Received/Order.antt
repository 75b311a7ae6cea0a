-- ===== src/Netdev/Received/Order.antt =====
-- The receiving ring of src/netdev_sock.c gives the kernel's frames to `recv_cb` of src/pktizr.c in order.
use hype.Utlist.{Utlist}
use hype.Netdev.Received.Inv.{Inv}
