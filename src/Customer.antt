-- ===== src/Customer.antt =====
-- The customer service (packages/customer-service/src): its tables and repositories, the subscriber
-- that moves the money, and the service behind the controllers.
pub mod Repository
pub mod Subscriber
pub mod Ledger
pub mod Accounts
pub mod Money
pub mod Conservation
pub mod Redelivery
pub mod Announcements
pub mod Effects
pub mod Progress
pub mod Service
pub mod Opening
pub mod Prisma
pub mod PrismaBalances
