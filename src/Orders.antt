-- ===== src/Orders.antt =====
-- src/orders: orders, the changes of their status, and their shipment.
pub mod Shipments
pub mod Transitions
