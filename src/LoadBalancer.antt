-- ===== src/LoadBalancer.antt =====
-- internal/loadbalancer/loadbalancer.go. Backends are shared by pointer between a balancer, the
-- health checker and the requests in flight, so they live on a heap: a pointer is a number. Each
-- atomic operation and each section under a mutex is one step on the heap or on a balancer.
pub mod Heap
pub mod RoundRobin
pub mod LeastConn
pub mod Weighted
pub mod IpHash
pub mod Merge
pub mod Balancer
mod Examples
